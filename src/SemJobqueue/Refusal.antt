-- ===== src/SemJobqueue/Refusal.antt =====
-- What a call of sem_jobqueue.c returns that does not come to its work: on NULL, or where a
-- `sem_wait` fails. The values are stated here of their own, next to those of the steps.
use csc.Base.{◌≡◌, refl, true, none}
use csc.SemJobqueue.{
  is_empty, is_full, size, space, peek, Call, dequeue, enqueue, look, Answer, nothing, pointer,
  flag, number, Look, failed_look,
}

-- NULL for a job, true for a question. Of _size and _space sem_jobqueue.h says -1, but it is 0.
unfoldable pub refusal : Call → Answer
refusal (dequeue dst) = pointer none
refusal (enqueue job) = nothing
refusal (look is_empty) = flag true
refusal (look is_full) = flag true
refusal (look size) = number 0
refusal (look space) = number 0
refusal (look (peek dst)) = pointer none

pub failed_look-refusal : (l : Look) → failed_look l ≡ refusal (look l)
unfolding failed_look refusal
failed_look-refusal Look.is_empty = refl
failed_look-refusal Look.is_full = refl
failed_look-refusal Look.size = refl
failed_look-refusal Look.space = refl
failed_look-refusal (Look.peek dst) = refl
