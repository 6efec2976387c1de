-- ===== src/Card/Tests.antt =====
-- Runs with a card and without.
use linux_app_samp.Base.{codes, ◌≡◌, refl, Bool, true, false, not, none, some, [], ◌∷◌, ◌++◌, arith}
use linux_app_samp.Card.Mount.{World, Kernel, content, main_mount, sd_mount, sd_umount}
use linux_app_samp.Card.Append.{IsWritable, on_card, runs, lines_of, runs_card}

abbrev kernel : Bool → Kernel
kernel card_there = record {
  mkdir_ok = λ w. not w.dir;
  mount_ok = λ w. card_there;
  umount_ok = λ w. w.mounted;
  open_ok = λ w path. true;
  accepts = λ w. 4096;
}

abbrev empty : World
empty = record {
  dir = false;
  mounted = false;
  card = some (codes "old\n");
  disk = none;
  lines = [];
}

kernel-IsWritable : (card_there : Bool) → IsWritable (kernel card_there)
kernel-IsWritable card_there = record { opens = λ w path. refl; takes = λ w. omega arith }

runs_card_example :
    (w' : World) × (runs (kernel true) 2 empty ≡ some w')
    × (content w'.card ≡ content empty.card ++ lines_of 2)
    × (w'.disk ≡ empty.disk)
runs_card_example = runs_card (kernel true) 2 empty (kernel-IsWritable true) (λ w. refl)

-- Without a card the lines go to the root file system.
no_card : on_card (kernel false) empty ≡ false
unfolding sd_mount
no_card = refl

mount_lines :
    (main_mount (kernel true) empty).lines
    ≡ codes "sd umounted /media/card\n" ∷ codes "sd mounted to /media/card\n" ∷ []
unfolding main_mount sd_mount sd_umount
mount_lines = refl
