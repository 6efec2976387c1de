-- ===== src/Times/Tests.antt =====
-- The texts of one time.
use linux_app_samp.Base.{codes, dec, ◌≡◌, refl, [], ◌∷◌, arith}
use linux_app_samp.Panel.DateTime.{IsTm}
use linux_app_samp.Times.Programs.{now_line, get_main, work_tm}

work_tm-IsTm : IsTm work_tm
work_tm-IsTm = record {
  year = omega arith;
  mon = omega arith;
  mday = omega arith;
  hour = omega arith;
  minute = omega arith;
  sec = omega arith;
}

shown : get_main work_tm ≡ codes "Hellow World\n" ∷ codes "now: 2014-5-3 12:30:45\n" ∷ []
unfolding get_main now_line dec
shown = refl
