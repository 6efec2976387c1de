-- ===== src/Card/Append.antt =====
-- What the runs of sd_append.c leave in the file.
use mathlib.Core.Option
use linux_app_samp.Base.{
  if◌then◌else◌, Bool-cases, length, replicate, append_assoc, append_nil, take_all, Bytes, overlay,
  codes, c_str, str_copy, str_cat, ℕ, zero, suc, ◌≤◌, ◌≡◌, refl, sym, ap, ◌∙◌, inl, inr, Bool, true,
  false, ◌||◌, Option, some, [], ◌∷◌, ◌++◌, arith,
}
use linux_app_samp.Card.Mount.{
  World, Kernel, say, content, at_path, put, then_do, write_end, write_lines, write_sample,
  sd_mount, sd_umount, said_mount, said_umount, main_append,
}

abbrev pub path : Bytes
path = codes "/media/card/test.csv"

abbrev pub line : Bytes
line = codes "test,1\r\n"

abbrev pub three_lines : Bytes
three_lines = line ++ (line ++ line)

abbrev named : World → World
named w = say (codes "file name = " ++ (path ++ 10 ∷ [])) w

-- The strings fit in their array of 100 bytes: the file has the name and the line has the text that the
-- code means.
sample_strings :
    (k : Kernel) (w : World)
    → write_sample k w
      ≡ some (
          if k.open_ok (named w) path
          then write_lines k line (put (content (at_path (named w))) (named w))
          else say (codes "open fail\n") (named w))
unfolding write_sample write_lines str_copy str_cat c_str overlay replicate
sample_strings k w = elim (Bool-cases (k.open_ok (named w) path)) [
  | inl ok ↦ rw ok refl
  | inr bad ↦ rw bad refl
]

-- Each `open` succeeds and each `write` takes all of a line.
pub record IsWritable (k : Kernel) : Type 0 where
  pub opens : (w : World) (path : Bytes) → k.open_ok w path ≡ true
  pub takes : (w : World) → length line ≤ k.accepts w

put-put : (a b : Bytes) (w : World) → put b (put a w) ≡ put b w
put-put a b w = elim (Bool-cases w.mounted) [ inl on ↦ rw on refl | inr off ↦ rw off refl ]

at_put : (a : Bytes) (w : World) → content (at_path (put a w)) ≡ a
at_put a w = elim (Bool-cases w.mounted) [ inl on ↦ rw on refl | inr off ↦ rw off refl ]

module _ (k : Kernel) (h : IsWritable k) where
  write_line : (text : Bytes) (w : World) → write_end k line (put text w) ≡ put (text ++ line) w
  write_line text w =
      ap (λ t. put (content (at_path (put text w)) ++ t) (put text w))
        (take_all (k.accepts (put text w)) line (h.takes (put text w)))
      ∙ put-put text _ w
      ∙ ap (λ c. put (c ++ line) w) (at_put text w)

  write_lines-line :
      (text : Bytes) (w : World) → write_lines k line (put text w) ≡ put (text ++ three_lines) w
  unfolding write_lines
  write_lines-line text w =
      ap (λ v. write_end k line (write_end k line v)) (write_line text w)
      ∙ ap (write_end k line) (write_line (text ++ line) w)
      ∙ write_line ((text ++ line) ++ line) w
      ∙ ap (λ t. put t w)
          (append_assoc (text ++ line) line line ∙ append_assoc text line (line ++ line))

-- The card is mounted where the file is written, now or since an earlier run.
abbrev pub on_card : Kernel → World → Bool
on_card k w = (sd_mount k w).1.mounted

-- One of the two files has grown by the lines, and the other is as before.
abbrev pub Grown : (on : Bool) (lines : Bytes) (w w' : World) → Type 0
Grown on lines w w' =
    (w'.card ≡ (if on then some (content w.card ++ lines) else w.card))
    × (w'.disk ≡ (if on then w.disk else some (content w.disk ++ lines)))

put-Grown :
    (text lines : Bytes) (on : Bool) (w : World)
    → w.mounted ≡ on
    → text ≡ content (at_path w) ++ lines
    → Grown on lines w (put text w)
put-Grown text lines true w e t = rw e (ap some (t ∙ ground (arith, e)), refl)
put-Grown text lines false w e t = rw e (refl, ap some (t ∙ ground (arith, e)))

umount-keeps :
    (k : Kernel) (w : World)
    → ((said_umount (sd_umount k w)).card ≡ w.card) × ((said_umount (sd_umount k w)).disk ≡ w.disk)
unfolding sd_umount
umount-keeps k w = elim (Bool-cases (k.umount_ok w)) [
  | inl ok ↦ rw ok (refl, refl)
  | inr bad ↦ rw bad (refl, refl)
]

mount-keeps :
    (k : Kernel) (w : World) → ((sd_mount k w).1.card ≡ w.card) × ((sd_mount k w).1.disk ≡ w.disk)
unfolding sd_mount
mount-keeps k w =
    let made = record w { dir = w.dir || k.mkdir_ok w } in
    elim (Bool-cases (k.mount_ok made)) [
      | inl ok ↦ rw ok (refl, refl)
      | inr bad ↦ rw bad (refl, refl)
    ]

-- A run whose `open` and writes succeed appends three lines, to the file on the card if a card is
-- mounted, and if not, to the one in the directory of the root file system: a `mount` that fails stops
-- nothing.
pub append_once :
    (k : Kernel) (w : World)
    → IsWritable k
    → (w' : World) × (main_append k w ≡ some w') × Grown (on_card k w) three_lines w w'
unfolding main_append
append_once k w h =
    let m = (sd_mount k w).1 in
    let w1 = say (codes "writing sample data\n") (said_mount (sd_mount k w)) in
    let grown = put (content (at_path w1) ++ three_lines) (named w1) in
    let written : write_sample k w1 ≡ some grown =
      sample_strings k w1
      ∙ rw (h.opens (named w1) path)
          (ap some (write_lines-line k h (content (at_path (named w1))) (named w1))) in
    let g =
      put-Grown (content (at_path w1) ++ three_lines) three_lines m.mounted (named w1) refl refl in
    let c = umount-keeps k grown in
    let d = mount-keeps k w in
    (
      said_umount (sd_umount k grown),
      ap (Option.map (λ w. said_umount (sd_umount k w))) written,
      (
        c.0 ∙ g.0 ∙ ap (λ f. if on_card k w then some (content f ++ three_lines) else f) d.0,
        c.1 ∙ g.1 ∙ ap (λ f. if on_card k w then f else some (content f ++ three_lines)) d.1,
      ),
    )

-- The program run again and again.
unfoldable pub runs : Kernel → ℕ → World → Option World
runs k zero w = some w
runs k (suc n) w = then_do (main_append k w) (runs k n)

abbrev pub lines_of : ℕ → Bytes
lines_of zero = []
lines_of (suc n) = three_lines ++ lines_of n

abbrev pub MountsAlways : Kernel → Type 0
MountsAlways k = (w : World) → k.mount_ok w ≡ true

mounted-on_card : (k : Kernel) (w : World) → MountsAlways k → on_card k w ≡ true
unfolding sd_mount
mounted-on_card k w m =
    let made : World = record w { dir = w.dir || k.mkdir_ok w } in
    let answer : Bool → Bool × World =
      λ ok. if ok then (true, record made { mounted = true }) else (false, made) in
    ap (λ ok. (answer ok).1.mounted) (m made)

-- If each `mount` and each `open` succeeds and each `write` takes all of a line, `n` runs come to
-- their end, leave all of their lines in the file of the card behind what was there, and leave the
-- file test.csv in the directory under it as it was.
pub runs_card :
    (k : Kernel) (n : ℕ) (w : World)
    → IsWritable k
    → MountsAlways k
    → (w' : World) × (runs k n w ≡ some w')
      × (content w'.card ≡ content w.card ++ lines_of n)
      × (w'.disk ≡ w.disk)
unfolding runs
runs_card k zero w h m = (w, refl, sym (append_nil (content w.card)), refl)
runs_card k (suc n) w h m =
    let (w1, run1, g) = append_once k w h in
    let on = mounted-on_card k w m in
    let card1 = g.0 ∙ ap (λ b. if b then some (content w.card ++ three_lines) else w.card) on in
    let disk1 = g.1 ∙ ap (λ b. if b then w.disk else some (content w.disk ++ three_lines)) on in
    let (w', run, card, disk) = runs_card k n w1 h m in
    (
      w',
      ap (λ o. then_do o (runs k n)) run1 ∙ run,
      card
          ∙ ap (λ f. content f ++ lines_of n) card1
          ∙ append_assoc (content w.card) three_lines (lines_of n),
      disk ∙ disk1,
    )
