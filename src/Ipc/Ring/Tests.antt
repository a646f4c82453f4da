-- ===== src/Ipc/Ring/Tests.antt =====
-- The ring buffer on concrete inputs, over a fixed-point stand-in for floats.
use k8s4claw.Base.{ℕ, ◌≡◌, refl, arith, pos, none, some, [], ◌∷◌}
use k8s4claw.Ipc.Ring.{RingBuffer, normal, slow, new_ring_buffer, size_of, push}
use k8s4claw.Ipc.Ring.Bounds.{IsValid}
use k8s4claw.Ipc.Ring.Runs.{pushes, pops, run_ring, run_queue, run_refines}
use k8s4claw.Ipc.Ring.Watermark.{IsMarked}
use k8s4claw.Ipc.Ring.Examples.{milli}

abbrev Ring : Type 0
Ring = RingBuffer ℕ ℕ

-- Three slots, the oldest message in the last one.
abbrev wrapped : Ring
wrapped = record {
  buf = some 9 ∷ none ∷ some 8 ∷ [];
  size = 3;
  head = 2;
  tail = 1;
  count = 2;
  high_mark = 800;
  low_mark = 300;
  state = normal;
}

wrapped-IsValid : IsValid wrapped
wrapped-IsValid = omega arith

wrapped-IsMarked : IsMarked milli wrapped
wrapped-IsMarked = record { apart = refl; calm = refl; busy = refl }

push-wrapped : (push milli wrapped 7).0.state ≡ slow
unfolding push
push-wrapped = refl

run_refines_example :
    run_ring milli {A = ℕ}
      (pushes 7 ∷ pushes 8 ∷ pushes 9 ∷ pops ∷ pops ∷ pops ∷ [])
      (new_ring_buffer milli (pos 2) 800 300)
    ≡ run_queue (size_of (pos 2)) (pushes 7 ∷ pushes 8 ∷ pushes 9 ∷ pops ∷ pops ∷ pops ∷ []) []
run_refines_example =
    run_refines milli (pos 2) 800 300 (pushes 7 ∷ pushes 8 ∷ pushes 9 ∷ pops ∷ pops ∷ pops ∷ [])
