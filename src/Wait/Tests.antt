-- ===== src/Wait/Tests.antt =====
-- The waiting programs at concrete inputs.
use linux_app_samp.Base.{ltb, if◌then◌else◌, codes, dec, pos, ◌≡◌, refl, some, [], ◌∷◌}
use linux_app_samp.Base.Int.{is_neg, pos_part}
use linux_app_samp.Os.{printed}
use linux_app_samp.Os.Sample.{sample_os, failing_os, next_fd}
use linux_app_samp.Gpio.Paths.{in_gpio}
use linux_app_samp.Gpio.Calls.{
  gpio_get_value, gpio_export, gpio_set_direction, gpio_set_edge, write_file,
}
use linux_app_samp.Panel.Led.{led_file, shown}
use linux_app_samp.Wait.Start.{set_up}
use linux_app_samp.Wait.Programs.{
  no_gpio, finished, running, poll_main, poll_loop, on_code, epoll_main, select_main, follow_loop,
}
use linux_app_samp.Wait.Quiet.{pushes}
use linux_app_samp.Wait.Pushes.{PushesOf, three_pushes}
use linux_app_samp.Wait.Follow.{follow_loop-shown}

poll_three : (poll_main (sample_os b'1') 5 []).0 ≡ finished
unfolding poll_main poll_loop on_code set_up gpio_export gpio_set_direction gpio_set_edge write_file
    next_fd
poll_three = refl

poll_low : (poll_main (sample_os b'0') 5 []).0 ≡ running
unfolding poll_main poll_loop on_code set_up gpio_export gpio_set_direction gpio_set_edge write_file
    next_fd
poll_low = refl

select_ends : (select_main (sample_os b'1') []).0 ≡ finished
unfolding select_main set_up gpio_export gpio_set_direction gpio_set_edge write_file next_fd
select_ends = refl

no_gpio_ends : (epoll_main failing_os 5 (pos 3) []).0 ≡ no_gpio
unfolding epoll_main set_up gpio_export write_file
no_gpio_ends = refl

follow_loop-shown_example :
    let os = sample_os b'1' in
    let h' = follow_loop os 2 [] in
    let (ret, read) = gpio_get_value os in_gpio (printed (codes ".") ∷ h') in
    shown (follow_loop os 3 []) ≡ (
      if is_neg (os.open_result read led_file)
      then shown h'
      else some (dec (if ltb 0 (pos_part ret) then 1 else 0)))
follow_loop-shown_example = follow_loop-shown (sample_os b'1') 2 []

three_pushes_example :
    (let (ending, h) = poll_main (sample_os b'1') 5 [] in PushesOf ending (pushes h))
    × (let (ending, h) = epoll_main (sample_os b'1') 5 (pos 3) [] in PushesOf ending (pushes h))
three_pushes_example = three_pushes (sample_os b'1') 5 (pos 3)
