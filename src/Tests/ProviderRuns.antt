-- ===== src/Tests/ProviderRuns.antt =====
-- Providers that begin and finalize sessions, and the theorems on what becomes of the token.
use thinwallet.Prelude.{Bool, ◌≡◌, refl, none, some}
use thinwallet.Prelude.Outcome.{err}
use thinwallet.Prelude.Bytes.{text}
use thinwallet.Provider.{token_error, new_session}
use thinwallet.Provider.Providers.{Provider, begin_semi, begin_malicious, finalize}
use thinwallet.Provider.Finalized.{Ended, finalize-Ended, begin-once}
use thinwallet.Tests.Toy.{toy}
use thinwallet.Tests.SpoolRuns.{empty}
use thinwallet.Tests.SessionRuns.{nothing, two_bases, context, token, same_bit, started}

abbrev provider : Provider Bool (Unit {0})
provider = record { bases = two_bases; token = some token; corruption = none; transport = none }

-- No row of the session was pushed.
finalize-Ended_example : Ended toy nothing (finalize toy nothing same_bit provider started)
unfolding new_session
finalize-Ended_example = finalize-Ended toy nothing same_bit provider started refl

begin-once_example :
    ((begin_semi toy nothing context 2 2 (begin_semi toy nothing context 2 2 provider).1).0
      ≡ err (token_error "token already consumed"))
    × ((begin_malicious toy nothing empty
          (text "2")
          (text ".1.2.tmp")
          context
          2
          2
          (begin_malicious toy nothing empty (text "1") (text ".1.1.tmp") context 2 2 provider).1).0
        ≡ err (token_error "token already consumed"))
begin-once_example =
    begin-once toy nothing empty empty (text "1") (text "2") (text ".1.1.tmp") (text ".1.2.tmp")
      context context 2 2 2 2 provider
