-- ===== src/Tests/MaliciousRuns.antt =====
-- A session of the malicious mode, with its spool, and the theorem on what it accepts.
use mathlib.Core.Bool.{xor}
use thinwallet.Prelude.{
  List, [], ◌∷◌, ◌≡◌, refl, true, false, Bool, none, arith, nat_eq, bytes_eq, option_eq,
}
use thinwallet.Prelude.Bytes.{le_bytes}
use thinwallet.Spool.{SecureSpool}
use thinwallet.Prelude.Outcome.{err}
use thinwallet.Provider.Stream.{Push}
use thinwallet.Provider.{integrity, malicious, Session, new_session}
use thinwallet.Provider.Finish.{
  aggregate_row, aggregate, seal_spool, remove_spool, on_mode, challenges, reject_outputs,
  aggregate_check, is_after_challenge, finish,
}
use thinwallet.Provider.Providers.{push_all}
use thinwallet.Provider.Combination.{join, chunk_pushes, row_pushes}
use thinwallet.Provider.Soundness.{Combined, accepted-Combined}
use thinwallet.Tests.Toy.{toy, toy-GroupLaws, toy-ScalarLaws}
use thinwallet.Tests.SpoolRuns.{spool_code, new_spool}
use thinwallet.Tests.SessionRuns.{session_code, nothing, two_bases, context, token, same_bit}

-- The two rows, each in two chunks of one scalar.
abbrev rows : List (List (List Bool))
rows = ((true ∷ []) ∷ (false ∷ []) ∷ []) ∷ ((true ∷ []) ∷ (true ∷ []) ∷ []) ∷ []

abbrev four_scalars : SecureSpool
four_scalars = record new_spool {
  descriptor = record new_spool.descriptor { logical_element_count = 4 };
}

abbrev started : Session toy nothing
started = new_session toy nothing context 2 2 two_bases (malicious token four_scalars) none

abbrev pushed : Session toy nothing
pushed = (push_all toy nothing (row_pushes 0 rows) started).1

abbrev finished : Session toy nothing
finished = (finish toy nothing same_bit none pushed).1

same_bit-eq : (a b : Bool) → same_bit a b ≡ true → a ≡ b
unfolding xor
same_bit-eq a b h = ground arith

accepted-Combined_example : Combined toy nothing context 2 two_bases token rows (true ∷ false ∷ [])
unfolding session_code spool_code le_bytes aggregate_row aggregate seal_spool remove_spool on_mode
    challenges reject_outputs aggregate_check is_after_challenge join chunk_pushes row_pushes
accepted-Combined_example =
    accepted-Combined toy nothing same_bit none context 2 2 two_bases token four_scalars none rows
      started pushed finished (true ∷ false ∷ []) toy-GroupLaws toy-ScalarLaws same_bit-eq
      (omega arith) (omega arith) refl (record { found = refl; writable = refl; unsealed = refl })
      refl (refl, (refl, tt)) refl refl refl

-- The second row is pushed between the halves of the first. The spool holds the scalars in the order
-- of the pushes, and the outputs, which are right, are rejected.
abbrev in_turns : List (Push Bool)
in_turns =
    record { row = 0; col_start = 0; col_end = 1; scalars = true ∷ [] }
    ∷ record { row = 1; col_start = 0; col_end = 2; scalars = true ∷ true ∷ [] }
    ∷ record { row = 0; col_start = 1; col_end = 2; scalars = false ∷ [] }
    ∷ []

in_turns_rejected :
    (finish toy nothing same_bit none (push_all toy nothing in_turns started).1).0 ≡ err integrity
unfolding session_code spool_code le_bytes aggregate_row aggregate seal_spool remove_spool on_mode
    challenges reject_outputs aggregate_check is_after_challenge
in_turns_rejected = refl
