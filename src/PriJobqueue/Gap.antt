-- ===== src/PriJobqueue/Gap.antt =====
-- The loop of `pri_jobqueue_dequeue` that moves the later jobs down by one slot.
use csc.Base.{
  suc, ◌+◌, ◌≡◌, sym, ◌∙◌, List, [], ◌∷◌, ◌++◌, append_assoc, arith, length, length-append, get_or,
  get_or-append, set, set-append, All,
}
use csc.Job.{Job, unused}
use csc.Job.Copy.{HasLabel, copied_self, has_full_label_of_full}
use csc.PriJobqueue.{copy_slot, shift_loop}

get_or-append_next :
    (pre : List Job) (x y : Job) (ys : List Job)
    → get_or (pre ++ (x ∷ y ∷ ys)) (length pre + 1) unused ≡ y
get_or-append_next pre x y ys =
    let moved : pre ++ (x ∷ y ∷ ys) ≡ (pre ++ (x ∷ [])) ++ (y ∷ ys) =
      sym (append_assoc pre (x ∷ []) (y ∷ ys)) in
    let size : length pre + 1 ≡ length (pre ++ (x ∷ [])) =
      omega (arith, length-append pre (x ∷ [])) in
    rw size (rw moved (get_or-append (pre ++ (x ∷ [])) ys y unused))

-- One round copies the next job down.
copy_slot-append :
    (pre : List Job) (x y : Job) (ys : List Job)
    → HasLabel y
    → copy_slot (pre ++ (x ∷ y ∷ ys)) (length pre) ≡ pre ++ (y ∷ y ∷ ys)
unfolding copy_slot
copy_slot-append pre x y ys h =
    rw (get_or-append_next pre x y ys)
      (rw (has_full_label_of_full y h) (rw (copied_self y h) (set-append pre (y ∷ ys) x y)))

-- The loop, and the reset of the last slot in use: the job behind `pre` is gone, the `ys` have
-- moved down, and the slot that they leave is unused.
pub shift_loop-append :
    (pre : List Job) (x : Job) (ys rest : List Job)
    → All HasLabel ys
    → set
        (shift_loop (length ys) (length pre) (pre ++ (x ∷ (ys ++ rest))))
        (length pre + length ys)
        unused
      ≡ pre ++ (ys ++ (unused ∷ rest))
unfolding shift_loop
shift_loop-append pre x [] rest h =
    let e : length pre + 0 ≡ length pre = omega arith in rw e (set-append pre rest x unused)
shift_loop-append pre x (y ∷ ys) rest (hy, h) =
    let moved : pre ++ (y ∷ y ∷ (ys ++ rest)) ≡ (pre ++ (y ∷ [])) ++ (y ∷ (ys ++ rest)) =
      sym (append_assoc pre (y ∷ []) (y ∷ (ys ++ rest))) in
    let size : length pre + 1 ≡ length (pre ++ (y ∷ [])) =
      omega (arith, length-append pre (y ∷ [])) in
    let last : length pre + suc (length ys) ≡ length (pre ++ (y ∷ [])) + length ys =
      omega (arith, size) in
    rw (copy_slot-append pre x y (ys ++ rest) hy, shift_loop)
      (rw last (
        rw size (
          rw moved (
            shift_loop-append (pre ++ (y ∷ [])) y ys rest h
            ∙ append_assoc pre (y ∷ []) (ys ++ (unused ∷ rest))))))
