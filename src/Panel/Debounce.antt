-- ===== src/Panel/Debounce.antt =====
-- The loop of `swTask`: the last three samples of the switch, and the flag that it toggles.
use linux_app_samp.Base.{ltb, if◌then◌else◌, ℕ, ◌+◌, Bool, false, not, ◌&&◌, List, [], ◌∷◌}

-- The locals of `swTask`, from the oldest sample to the newest.
pub record Switch : Type 0 where
  pub hist0 : Bool
  pub hist1 : Bool
  pub hist2 : Bool
  pub pos : ℕ

unfoldable pub start : Switch
start = record { hist0 = false; hist1 = false; hist2 = false; pos = 0 }

abbrev pub shift : Switch → Bool → Switch
shift s now = record s { hist0 = s.hist1; hist1 = s.hist2; hist2 = now }

-- One round, from the sample `now` on; the second component is `s_bfStart`.
unfoldable pub sample : Switch → Bool → Bool → Switch × Bool
sample s now bf_start =
    if ltb s.pos 3 then (record (shift s now) { pos = s.pos + 1 }, bf_start) else (
      shift s now,
      if not s.hist0 && not s.hist1 && s.hist2 && now then not bf_start else bf_start,
    )

unfoldable pub samples : List Bool → Switch → Bool → Switch × Bool
samples [] s bf_start = (s, bf_start)
samples (now ∷ rest) s bf_start = let (s', bf') = sample s now bf_start in samples rest s' bf'
