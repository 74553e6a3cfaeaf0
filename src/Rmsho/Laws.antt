-- ===== src/Rmsho/Laws.antt =====
-- What rmsho removes.
use csc.Base.{
  ℕ, ◌≡◌, refl, ap, ◌∙◌, Bool, true, false, ◌&&◌, not, Option, none, some, List, [], ◌∷◌, ◌==◌,
  arith, if◌then◌else◌, length, ltb,
}
use csc.CString.{codes, until_nul, same_text, strnlen, strncmp_eq}
use csc.Ipc.{ipc_name, shm_unlink}
use csc.SemJobqueue.Setup.{World, sem_unlink}
use csc.Rmsho.{exit_failure, get_selector, unlink_selected, remove_named, main}

-- What the arguments behind the program's name ask for: the label, and whether it is a
-- semaphore's.
abbrev pub request : List (List ℕ) → Option (Bool × List ℕ)
request [] = none
request (label ∷ []) = some (false, label)
request (option ∷ label ∷ []) = some (same_text (until_nul option) (codes "-s"), label)
request (option ∷ label ∷ more ∷ rest) = none

abbrev pub fulfil : Option (Bool × List ℕ) → World → ℕ × World
fulfil none w = (exit_failure, w)
fulfil (some (true, label)) w =
    (0, record w { semaphores = sem_unlink (ipc_name w.system.user (some label)) w.semaphores })
fulfil (some (false, label)) w =
    (0, record w { system = shm_unlink (ipc_name w.system.user (some label)) w.system })

-- The test of the option.
option_lem :
    (o : List ℕ)
    → (not (strnlen o 3 == 0) && strncmp_eq o (codes "-s") 3) ≡ same_text (until_nul o) (codes "-s")
unfolding strnlen strncmp_eq same_text
option_lem [] = refl
option_lem (a ∷ []) = ground arith
option_lem (a ∷ b ∷ []) = ground arith
option_lem (a ∷ b ∷ c ∷ o) = ground arith

get_selector_option :
    (program option label : List ℕ)
    → get_selector 3 (program ∷ option ∷ label ∷ [])
      ≡ (if same_text (until_nul option) (codes "-s") then 6 else 2)
unfolding get_selector
get_selector_option program option label = rw (option_lem option) refl

one_label :
    (program label : List ℕ) (w : World)
    → remove_named (get_selector 2 (program ∷ label ∷ [])) (program ∷ label ∷ []) w
      ≡ fulfil (some (false, label)) w
unfolding remove_named unlink_selected get_selector
one_label program label w = refl

remove_selected :
    (semaphore : Bool) (program option label : List ℕ) (w : World)
    → remove_named (if semaphore then 6 else 2) (program ∷ option ∷ label ∷ []) w
      ≡ fulfil (some (semaphore, label)) w
unfolding remove_named unlink_selected
remove_selected true program option label w = refl
remove_selected false program option label w = refl

-- For any arguments behind the name of the program: with one argument `main` removes the shared
-- object of that label, with two the semaphore of the second if the first is "-s" and its shared
-- object if not, and returns 0; with none or more than two it returns 1 and removes nothing.
pub main-fulfils :
    (program : List ℕ) (args : List (List ℕ)) (w : World)
    → main (program ∷ args) w ≡ fulfil (request args) w
unfolding main
main-fulfils program [] w = refl
main-fulfils program (label ∷ []) w = one_label program label w
main-fulfils program (option ∷ label ∷ []) w =
    ap (λ r. remove_named r (program ∷ option ∷ label ∷ []) w)
      (get_selector_option program option label)
    ∙ remove_selected (same_text (until_nul option) (codes "-s")) program option label w
main-fulfils program (option ∷ label ∷ more ∷ rest) w =
    let many : ltb 3 (length (program ∷ option ∷ label ∷ more ∷ rest)) ≡ true = ground arith in
    let few : ltb (length (program ∷ option ∷ label ∷ more ∷ rest)) 2 ≡ false = ground arith in
    rw (few, many) refl
