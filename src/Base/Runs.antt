-- ===== src/Base/Runs.antt =====
-- Sequences of the steps of a state machine.
-- Any number of steps of a relation, the last step outermost.
pub data Runs {S : Type 0} (R : S → S → Type 0) (s : S) : S → Type 0 where
  here : Runs R s s
  later : {t u : S} → Runs R s t → R t u → Runs R s u
