-- ===== src/Net/Lines.antt =====
-- Which interfaces the listing programs show.
use linux_app_samp.Base.{
  if◌then◌else◌, append_assoc, append_nil, Bytes, ◌≡◌, sym, ap, ◌∙◌, Bool, true, false, Option,
  none, some, List, [], ◌∷◌, ◌++◌, map,
}
use linux_app_samp.Machine.{All}
use linux_app_samp.Net.Listing.{
  NameIndex, Listed, listed, memory_error, is_last, index_line, name_loop, Family, IfAddrs,
  address_line, if_addr, address_loop,
}

abbrev pub IsEntry : NameIndex → Type 0
IsEntry p = is_last p ≡ false

-- Every interface in front of the end of the array is printed, in order, and nothing behind it is read.
pub name_loop-lines :
    (lines : List Bytes) (ps rest : List NameIndex) (end : NameIndex)
    → All IsEntry ps
    → is_last end ≡ true
    → name_loop lines (ps ++ end ∷ rest) ≡ listed (lines ++ map index_line ps)
unfolding name_loop
name_loop-lines lines [] rest end entries last = rw last (ap listed (sym (append_nil lines)))
name_loop-lines lines (p ∷ ps) rest end entries last = rw (entries.0) (
    name_loop-lines (lines ++ index_line p ∷ []) ps rest end entries.1 last
    ∙ ap listed (append_assoc lines (index_line p ∷ []) (map index_line ps)))

-- The lines of the interfaces up to the first without an address.
abbrev pub line_then : Bytes → Option Family → List Bytes → List Bytes
line_then name none lines = []
line_then name (some family) lines = address_line name family ∷ lines

abbrev pub addressed : List IfAddrs → List Bytes
addressed [] = []
addressed (p ∷ ps) = line_then p.ifa_name p.ifa_addr (addressed ps)

abbrev pub and_more : Option Family → Bool → Bool
and_more none more = false
and_more (some family) more = more

abbrev pub all_addressed : List IfAddrs → Bool
all_addressed [] = true
all_addressed (p ∷ ps) = and_more p.ifa_addr (all_addressed ps)

abbrev pub ending : Bool → List Bytes → Listed
ending ok lines = if ok then listed lines else memory_error lines

one_more :
    (name : Bytes) (lines : List Bytes) (ps : List IfAddrs) (addr : Option Family)
    → ((ls : List Bytes) → address_loop ls ps ≡ ending (all_addressed ps) (ls ++ addressed ps))
    → if_addr addr lines (λ family. address_loop (lines ++ address_line name family ∷ []) ps)
      ≡ ending (and_more addr (all_addressed ps)) (lines ++ line_then name addr (addressed ps))
one_more name lines ps none later = ap memory_error (sym (append_nil lines))
one_more name lines ps (some family) later =
    later (lines ++ address_line name family ∷ [])
    ∙ ap (ending (all_addressed ps))
        (append_assoc lines (address_line name family ∷ []) (addressed ps))

-- One line for each interface, in order, as long as each has an address; at the first without one the program
-- reads through a NULL pointer.
pub address_loop-lines :
    (lines : List Bytes) (ps : List IfAddrs)
    → address_loop lines ps ≡ ending (all_addressed ps) (lines ++ addressed ps)
unfolding address_loop
address_loop-lines lines [] = ap listed (sym (append_nil lines))
address_loop-lines lines (p ∷ ps) =
    one_more p.ifa_name lines ps p.ifa_addr (λ ls. address_loop-lines ls ps)
