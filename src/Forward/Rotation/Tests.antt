-- ===== src/Forward/Rotation/Tests.antt =====
-- A wait for a rotation.
use mur_model_gateway.Common.{ℕ, ◌≡◌, ◌*◌, refl, some, ok, arith, if◌then◌else◌, ltb}
use mur_model_gateway.Common.Text.{str_eq}
use mur_model_gateway.Forward.Rotation.{Reading, wait_for_rotation, poll_loop, replacement}
use mur_model_gateway.Forward.Rotation.Bounded.{wait_for_rotation-ends, Answers}

abbrev readings : ℕ → Reading
readings n = if ltb n 3 then ok (some "old") else ok (some "new")

abbrev clock : ℕ → ℕ
clock n = n * 50

waits : wait_for_rotation readings clock 0 "old" ≡ some (some "new")
unfolding wait_for_rotation poll_loop replacement str_eq
waits = refl

wait_for_rotation-ends_example :
    Answers readings clock "old" 500 0 11 (wait_for_rotation readings clock 0 "old")
wait_for_rotation-ends_example =
    wait_for_rotation-ends readings clock 0 "old" (omega arith) (λ n. ground arith)
