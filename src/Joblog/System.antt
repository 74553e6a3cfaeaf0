-- ===== src/Joblog/System.antt =====
-- The calls of the operating system and of <stdio.h> that joblog.c makes: the directory at
-- JOBLOG_PATH, the text files in it, and errno.
use csc.Base.{
  ℕ, zero, suc, Bool, true, false, ◌&&◌, ◌||◌, not, Option, none, some, List, [], ◌∷◌, ◌++◌, ◌==◌,
  if◌then◌else◌,
}
use csc.Base.Int.{ℤ, pos, negsuc}
use csc.CString.{same_text}

-- What stands at JOBLOG_PATH: `other` is a file that is no directory.
pub data Out : Type 0 where
  absent directory other : Out

-- `files` has the contents of the log files by their names; `names` counts the strings of `asprintf`
-- that the process has not freed, and `streams` the files that it has open.
pub record Disk : Type 0 where
  pub out : Out
  pub files : List ℕ → Option (List ℕ)
  pub errno : ℕ
  pub names : ℕ
  pub streams : ℕ

abbrev less : ℕ → ℕ
less zero = zero
less (suc n) = n

-- Whether each call succeeds where it may fail for a reason that is not in the `Disk`, and the
-- errno that the calls leave.
pub record Chances : Type 0 where
  pub asprintf : Bool
  pub stat : Bool
  pub unlink : Bool
  pub mkdir : Bool
  pub remove : Bool
  pub fopen : Bool
  pub fseek : Bool
  pub fgets : Bool
  pub fprintf : Bool
  pub errno : ℕ

abbrev pub with_errno : ℕ → Disk → Disk
with_errno e s = record s { errno = e }

-- The calls may set errno, also where they succeed.
abbrev pub spoil : Chances → Disk → Disk
spoil c s = with_errno c.errno s

-- The string that `asprintf` has made, if any, is the process's to free.
abbrev pub own_name : Option (List ℕ) → Disk → Disk
own_name none s = s
own_name (some name) s = record s { names = suc s.names }

abbrev pub free_name : Disk → Disk
free_name s = record s { names = less s.names }

abbrev pub open_stream : Disk → Disk
open_stream s = record s { streams = suc s.streams }

abbrev pub fclose : Disk → Disk
fclose s = record s { streams = less s.streams }

abbrev pub store : (List ℕ → Option (List ℕ)) → List ℕ → Option (List ℕ) → List ℕ → Option (List ℕ)
store f name v n = if same_text name n then v else f n

unfoldable pub is_directory : Out → Bool
is_directory directory = true
is_directory absent = false
is_directory other = false

unfoldable pub is_absent : Out → Bool
is_absent absent = true
is_absent directory = false
is_absent other = false

-- Whether `stat (JOBLOG_PATH, …)` fails.
unfoldable pub stat_fails : Chances → Disk → Bool
stat_fails c s = is_absent s.out || not c.stat

unfoldable pub unlinked : Out → Out
unlinked other = absent
unlinked absent = absent
unlinked directory = directory

-- `unlink (JOBLOG_PATH)` removes no directory.
unfoldable pub unlink : Chances → Disk → Disk
unlink c s = if c.unlink then record s { out = unlinked s.out } else s

-- `mkdir (JOBLOG_PATH, …)`: there is no log in a new directory.
unfoldable pub mkdir : Chances → Disk → ℤ × Disk
mkdir c s =
    if is_absent s.out && c.mkdir
    then (pos 0, record s { out = directory; files = λ name. none })
    else (negsuc 0, s)

-- `remove`
unfoldable pub remove_file : List ℕ → Chances → Disk → Disk
remove_file name c s =
    if is_directory s.out && c.remove then record s { files = store s.files name none } else s

-- `fopen (name, "r")`: what the file holds, or NULL.
unfoldable pub fopen_r : List ℕ → Chances → Disk → Option (List ℕ)
fopen_r name c s = if is_directory s.out && c.fopen then s.files name else none

unfoldable pub contents : Option (List ℕ) → List ℕ
contents none = []
contents (some t) = t

-- Whether `fopen (name, "a")` opens the file.
unfoldable pub fopen_a : Chances → Disk → Bool
fopen_a c s = is_directory s.out && c.fopen

-- The text `t` at the end of a file, which is made where there is none.
unfoldable pub append : List ℕ → List ℕ → Disk → Disk
append name t s = record s { files = store s.files name (some (contents (s.files name) ++ t)) }

-- A line, or its first `n` characters.
unfoldable pub line : ℕ → List ℕ → List ℕ
line zero s = []
line (suc n) [] = []
line (suc n) (c ∷ s) = let rest = line n s in if c == 10 then c ∷ [] else c ∷ rest

unfoldable pub nonempty_line : List ℕ → Option (List ℕ)
nonempty_line [] = none
nonempty_line (c ∷ t) = some ((c ∷ t) ++ (0 ∷ []))

-- `fgets (buf, n + 1, file)`, where the file stands before `s`: the string in `buf`, or NULL.
unfoldable pub fgets : ℕ → List ℕ → Chances → Option (List ℕ)
fgets n s c = if c.fgets then nonempty_line (line n s) else none
