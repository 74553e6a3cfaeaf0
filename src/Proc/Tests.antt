-- ===== src/Proc/Tests.antt =====
-- Concrete runs of proc.c, and the theorems about it at concrete inputs.
use csc.Base.{◌≡◌, refl, true, false, none, some, [], ◌∷◌, ◌==◌}
use csc.Base.Memory.{Memory}
use csc.Base.Int.{pos}
use csc.Proc.{Proc, Settings, proctype_of, new, delay_ms, do_critical_work, do_noncritical_work}
use csc.Samples.{clock, proc}
use csc.Proc.Delay.{Naps, work-Naps}

abbrev settings : Settings
settings = record {
  id = pos 12;
  jobs = pos 3;
  is_init = true;
  delay_start = pos 0;
  delay_exit = pos 0;
  crit_work = record { least = pos 20; most = pos 40 };
  noncrit_work = record { least = pos 0; most = pos 40 };
}

long_delay : (delay_ms 2345 clock).naps ≡ record { tv_sec = 2; tv_nsec = 345000000 } ∷ []
unfolding delay_ms
long_delay = refl

bad_type : new (pos 4) none settings true ≡ none
unfolding new proctype_of
bad_type = refl

work-Naps_example :
    Naps (pos 20) (pos 40) clock (do_critical_work (some proc) clock)
    × Naps (pos 0) (pos 40) clock (do_noncritical_work (some proc) clock)
    × (do_critical_work none clock ≡ clock)
    × (do_noncritical_work none clock ≡ clock)
work-Naps_example = work-Naps proc clock

-- Memory for descriptors; the next address is 1.
abbrev memory : Memory Proc
memory = record { content = λ p. proc; live = λ p. p == 0; next = 1; refuse = λ p. false }
