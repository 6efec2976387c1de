-- ===== src/Net/Listing.antt =====
-- The programs that list the interfaces, over what the library gives them.
use linux_app_samp.Base.{
  ◌==◌, if◌then◌else◌, Bytes, codes, dec, ℕ, Bool, true, false, ◌&&◌, Option, none, some, List, [],
  ◌∷◌, ◌++◌,
}

-- An entry of `if_nameindex`; `none` is NULL.
pub record NameIndex : Type 0 where
  pub if_index : ℕ
  pub if_name : Option Bytes

-- What a program has printed at its end, or where it accesses memory that is not there.
pub data Listed : Type 0 where
  listed : (lines : List Bytes) → Listed
  memory_error : (lines : List Bytes) → Listed
  exit_failure : Listed

abbrev pub is_none : Option Bytes → Bool
is_none none = true
is_none (some name) = false

-- `isLast`
abbrev pub is_last : NameIndex → Bool
is_last p = is_none p.if_name && (p.if_index == 0)

-- `%s` of NULL, for which the library prints this.
abbrev pub name_text : Option Bytes → Bytes
name_text none = codes "(null)"
name_text (some name) = name

abbrev pub index_line : NameIndex → Bytes
index_line p = dec p.if_index ++ (codes " name:" ++ (name_text p.if_name ++ 10 ∷ []))

-- The loop of network_02listInterfaceNames.c over an array; `lines` are those before.
unfoldable pub name_loop : (lines : List Bytes) → List NameIndex → Listed
name_loop lines [] = memory_error lines
name_loop lines (p ∷ ps) =
    let later = name_loop (lines ++ index_line p ∷ []) ps in
    if is_last p then listed lines else later

-- `main` of it; `none` is NULL.
unfoldable pub name_main : Option (List NameIndex) → Listed
unfolding name_loop
name_main none = exit_failure
name_main (some ps) = name_loop [] ps

-- An address of `getifaddrs`: its family with the texts that `inet_ntop` makes of it.
pub data Family : Type 0 where
  af_inet : (address netmask : Bytes) → Family
  af_inet6 af_packet af_other : Family

-- `ifa_addr` may be NULL.
pub record IfAddrs : Type 0 where
  pub ifa_name : Bytes
  pub ifa_addr : Option Family

-- The texts of `cfamily`, `caddr` and `cnetmask`.
abbrev pub family_texts : Family → Bytes × Bytes × Bytes
family_texts (af_inet address netmask) = (codes "IPv4", address, netmask)
family_texts af_inet6 = (codes "IPv6", [], [])
family_texts af_packet = (codes "AF_PACKET", [], [])
family_texts af_other = (codes "other", [], [])

abbrev pub address_line : Bytes → Family → Bytes
address_line name family =
    let (cfamily, caddr, cnetmask) = family_texts family in
    name
    ++ (codes ": \t"
        ++ (cfamily ++ (codes "\t" ++ (caddr ++ (codes "\t" ++ (cnetmask ++ 10 ∷ []))))))

abbrev pub if_addr : Option Family → (lines : List Bytes) → (Family → Listed) → Listed
if_addr none lines k = memory_error lines
if_addr (some family) lines k = k family

-- The loop of network_03getIpAddr.c over the list.
unfoldable pub address_loop : (lines : List Bytes) → List IfAddrs → Listed
address_loop lines [] = listed lines
address_loop lines (p ∷ ps) =
    if_addr p.ifa_addr lines
      (λ family. address_loop (lines ++ address_line p.ifa_name family ∷ []) ps)

-- `main` of it; `none` is an error of `getifaddrs`.
unfoldable pub address_main : Option (List IfAddrs) → Listed
unfolding address_loop
address_main none = exit_failure
address_main (some ps) = address_loop [] ps
