-- ===== src/Card/Mount.antt =====
-- The two programs, with the mounted card and the directory under it as the world. What `mkdir`, `mount`,
-- `umount`, `open` and `write` answer are parameters; they may depend on the world.
use mathlib.Core.Option
use linux_app_samp.Base.{
  if◌then◌else◌, take, replicate, Bytes, overlay, codes, c_str, str_copy, str_cat, ℕ, Bool, true,
  false, ◌||◌, Option, none, some, List, [], ◌∷◌, ◌++◌,
}

-- `card` and `disk` are the file `test.csv` on the card and in the directory of the root file system
-- that the card is mounted over.
pub record World : Type 0 where
  pub dir : Bool
  pub mounted : Bool
  pub card : Option Bytes
  pub disk : Option Bytes
  pub lines : List Bytes  -- the newest first

-- `accepts` is how many bytes a `write` takes at most.
pub record Kernel : Type 0 where
  pub mkdir_ok : World → Bool
  pub mount_ok : World → Bool
  pub umount_ok : World → Bool
  pub open_ok : World → Bytes → Bool
  pub accepts : World → ℕ

abbrev pub k_mount_pos : Bytes
k_mount_pos = codes "/media/card"

abbrev pub say : Bytes → World → World
say line w = record w { lines = line ∷ w.lines }

abbrev pub content : Option Bytes → Bytes
content none = []
content (some bytes) = bytes

-- The file that a path below the directory leads to, and the world with another one there.
abbrev pub at_path : World → Option Bytes
at_path w = if w.mounted then w.card else w.disk

abbrev pub put : Bytes → World → World
put bytes w = if w.mounted then record w { card = some bytes } else record w { disk = some bytes }

-- None if a function of strings went over the end of its array.
abbrev pub then_do {ℓ} : {A B : Type ℓ} → Option A → (A → Option B) → Option B
then_do none k = none
then_do (some a) k = k a

-- The lines of `main` on the result of a mount and of an unmount.
abbrev pub said_mount : Bool × World → World
said_mount (ok, w) =
    say
      (if ok then codes "sd mounted to " ++ (k_mount_pos ++ 10 ∷ []) else codes "sd mount : fail\n")
      w

abbrev pub said_umount : Bool × World → World
said_umount (ok, w) =
    say
      (if ok then codes "sd umounted " ++ (k_mount_pos ++ 10 ∷ []) else codes "sd umount : fail\n")
      w

module _ (k : Kernel) where
  -- `write` to a file opened with `O_APPEND`.
  abbrev pub write_end : Bytes → World → World
  write_end bytes w = put (content (at_path w) ++ take (k.accepts w) bytes) w

  -- The three calls of `write`.
  unfoldable pub write_lines : Bytes → World → World
  write_lines text w = write_end text (write_end text (write_end text w))

  -- `write_sample`; `open` creates a file that is not there.
  unfoldable pub write_sample : World → Option World
  unfolding write_lines str_copy str_cat c_str overlay replicate
  write_sample w = then_do (str_copy (replicate 100 0) k_mount_pos) (λ buf.
      then_do (str_cat buf (codes "/test.csv")) (λ buf. then_do (c_str buf) (λ path.
        let named = say (codes "file name = " ++ (path ++ 10 ∷ [])) w in
        if k.open_ok named path
        then then_do (str_copy buf (codes "test,1\r\n")) (λ buf.
          then_do (c_str buf)
            (λ text. some (write_lines text (put (content (at_path named)) named))))
        else some (say (codes "open fail\n") named))))

  -- `sd_mount`
  unfoldable pub sd_mount : World → Bool × World
  sd_mount w =
      let made = record w { dir = w.dir || k.mkdir_ok w } in
      if k.mount_ok made then (true, record made { mounted = true }) else (false, made)

  -- `sd_umount`
  unfoldable pub sd_umount : World → Bool × World
  sd_umount w = if k.umount_ok w then (true, record w { mounted = false }) else (false, w)

  -- `main` of sd_mount_umount.c
  unfoldable pub main_mount : World → World
  unfolding sd_mount sd_umount
  main_mount w = said_umount (sd_umount (said_mount (sd_mount w)))

  -- `main` of sd_append.c
  unfoldable pub main_append : World → Option World
  unfolding sd_mount sd_umount write_sample
  main_append w =
      Option.map (λ w. said_umount (sd_umount w))
        (write_sample (say (codes "writing sample data\n") (said_mount (sd_mount w))))
