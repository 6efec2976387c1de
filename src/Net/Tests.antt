-- ===== src/Net/Tests.antt =====
-- One interface, and the theorems at concrete inputs.
use linux_app_samp.Base.{codes, dec, ◌≡◌, refl, ◌↔◌, true, false, none, some, [], ◌∷◌}
use linux_app_samp.Net.Listing.{
  NameIndex, listed, memory_error, name_main, name_loop, af_inet, IfAddrs, address_main,
  address_loop,
}
use linux_app_samp.Net.Settings.{Flags, Interface, success, cleared, ifdown_main, ifdown_flags}

abbrev eth0 : Interface
eth0 = record {
  flags = record { up = true; running = true; others = 4096 };
  address = codes "192.168.0.2";
  netmask = codes "255.255.255.0";
  lines = [];
}

abbrev stack : Flags
stack = record { up = false; running = true; others = 7 }

ifdown_flags_example :
    let (exit, after) = ifdown_main true true stack eth0 in
    ((exit ≡ success) ↔ (true ≡ true))
    × (after.flags ≡ cleared stack)
    × (after.address ≡ eth0.address)
    × (after.netmask ≡ eth0.netmask)
ifdown_flags_example = ifdown_flags true true stack eth0

abbrev lo : NameIndex
lo = record { if_index = 1; if_name = some (codes "lo") }

abbrev end : NameIndex
end = record { if_index = 0; if_name = none }

names : name_main (some (lo ∷ end ∷ [])) ≡ listed (codes "1 name:lo\n" ∷ [])
unfolding name_main name_loop dec
names = refl

abbrev tun : IfAddrs
tun = record { ifa_name = codes "tun0"; ifa_addr = none }

abbrev wired : IfAddrs
wired = record {
  ifa_name = codes "eth0";
  ifa_addr = some (af_inet (codes "10.0.0.2") (codes "255.0.0.0"));
}

-- An interface without an address.
no_address :
    address_main (some (wired ∷ tun ∷ []))
    ≡ memory_error (codes "eth0: \tIPv4\t10.0.0.2\t255.0.0.0\n" ∷ [])
unfolding address_main address_loop
no_address = refl
