-- ===== src/Tests/SessionRuns.antt =====
-- Runs of the sessions, with two rows of two scalars as in the tests of
-- experiments/preprocessed-pbmo/src/provider.rs, and the theorems at these runs.
use mathlib.Core.Bool.{xor}
use thinwallet.Prelude.{
  ◌+◌, ◌≤◌, List, [], ◌∷◌, ◌≡◌, refl, length, replicate, true, false, Bool, not, some, none, All,
  map, arith, nat_eq, bytes_eq, option_eq,
}
use thinwallet.Prelude.Outcome.{Result, ok, err}
use thinwallet.Prelude.Bytes.{Bytes, text, le_bytes}
use thinwallet.External.{PbmoContext}
use thinwallet.Token.{Token, TokenBinding, reserved, backend_revision}
use thinwallet.Token.Codec.{concat}
use thinwallet.Token.Equality.{state_eq}
use thinwallet.Token.Generate.{
  encoded_shape, domain_metadata, context_digest, mask_row, corrections,
}
use thinwallet.Field.{
  digest32, digest_parts, put_len_bytes, mask_input, derive_mask_scalar, derive_batch_challenge,
}
use thinwallet.Wire.Checks.{basis_digest}
use thinwallet.Wire.Server.Rows.{range, row_of, rows_of}
use thinwallet.Provider.{
  PbmoTransport, semi, Session, token_of, is_native, with_token_state, map_err,
  context_binding_digest, output_digest, token_differs, check_token, open_transport, new_session,
  start_session,
}
use thinwallet.Provider.Stream.{
  Push, out_of_order, mask_from, masked, wire_scalars, add_at, append_spool, frame_of, spool_chunk,
  check_frame, add_locally, deliver, mask_count, spool_count, masked_counted, spool_counted,
  chunk_counted, push_chunk,
}
use thinwallet.Provider.Finish.{
  corrupt, first_base, recover, burn_if, collect_outputs, check_outputs, recover_outputs, finish,
}
use thinwallet.Provider.Providers.{push_all}
use thinwallet.Provider.Rows.{Fits, pieces_of}
use thinwallet.Provider.Products.{Prepared, session-products}
use thinwallet.Provider.Combination.{join, row_pushes}
use thinwallet.Provider.Serves.{Unspooled}
use thinwallet.Provider.Tally.{total, push_all-tally}
use thinwallet.Provider.Total.{run-products}
use thinwallet.Tests.Toy.{toy, toy-GroupLaws, toy-StreamLaws}

-- A transport that is never there.
abbrev pub nothing : PbmoTransport Bool
nothing = record {
  Box = Unit;
  reserve_session = λ digest s. (ok tt, s);
  send_request_header = λ h s. (ok tt, s);
  send_masked_chunk = λ c s. (ok tt, s);
  finish_request = λ s. (ok [], s);
  receive_response = λ s. (ok ([], []), s);
  abort_session = λ s. (ok tt, s);
}

abbrev pub two_bases : List Bool
two_bases = true ∷ true ∷ []

abbrev pub two_by_two : TokenBinding
two_by_two = record {
  basis_digest = basis_digest toy two_bases;
  backend_revision = backend_revision;
  relation_shape = record {
    relation_id = text "test";
    logical_commitment_id = text "witness";
    layout_version = text "v1";
  };
  q = 2;
  m = 2;
}

abbrev pub token_id : Bytes
token_id = replicate 16 3

abbrev pub context : PbmoContext
context = record {
  protocol_version = 1;
  session_id = text "session-a";
  proof_id = text "proof-a";
  token_id = some token_id;
  logical_commitment_id = text "witness";
  basis_digest = basis_digest toy two_bases;
  backend_revision = backend_revision;
  relation_shape = text "test:v1";
  expected_chunks = 4;
}

abbrev pub bytes_or : {E : Type 0} → Result E Bytes → Bytes
bytes_or (ok b) = b
bytes_or (err e) = []

abbrev pub token : Token Bool
token = record {
  token_id = token_id;
  binding = two_by_two;
  creation_epoch = 0;
  state = reserved;
  journal_reference = replicate 32 0;
  correction_points =
      corrections toy (replicate 32 7) (domain_metadata two_by_two token_id) two_bases 2 0 2;
  seed = replicate 32 7;
  key_id = text "software-test-key-v1";
  reservation_binding = some (record {
    ctx_digest = context_digest toy two_by_two;
    sid = text "proof-a";
    iid = text "session-a";
    request_digest = bytes_or (context_binding_digest toy context 2 2);
  });
  record_generation = 1;
}

-- The rows are pushed half by half, and the halves of the two rows in turn.
abbrev pub halves : List (Push Bool)
halves =
    record { row = 0; col_start = 0; col_end = 1; scalars = true ∷ [] }
    ∷ record { row = 1; col_start = 0; col_end = 1; scalars = true ∷ [] }
    ∷ record { row = 0; col_start = 1; col_end = 2; scalars = false ∷ [] }
    ∷ record { row = 1; col_start = 1; col_end = 2; scalars = true ∷ [] }
    ∷ []

unfoldable pub session_code : Unit {0}
unfolding xor encoded_shape domain_metadata context_digest mask_row corrections digest32
    digest_parts put_len_bytes mask_input derive_mask_scalar derive_batch_challenge basis_digest
    range row_of rows_of token_of is_native with_token_state map_err context_binding_digest
    output_digest token_differs check_token open_transport new_session start_session out_of_order
    mask_from masked wire_scalars add_at append_spool frame_of spool_chunk check_frame add_locally
    deliver mask_count spool_count masked_counted spool_counted chunk_counted push_chunk corrupt
    first_base recover burn_if collect_outputs check_outputs recover_outputs finish push_all
    pieces_of Fits Prepared nat_eq bytes_eq option_eq state_eq concat
session_code = tt

abbrev pub started : Session toy nothing
started = new_session toy nothing context 2 2 two_bases (semi token) none

abbrev pushed : Session toy nothing
pushed = (push_all toy nothing halves started).1

abbrev pub same_bit : Bool → Bool → Bool
same_bit a b = not (xor a b)

abbrev finished : Session toy nothing
finished = (finish toy nothing same_bit none pushed).1

session-products_example :
    All (λ row. length row ≡ 2) (rows_of 2 (pieces_of halves))
    × ((true ∷ false ∷ []) ≡ map (λ row. toy.msm row two_bases) (rows_of 2 (pieces_of halves)))
unfolding session_code le_bytes
session-products_example =
    session-products toy nothing same_bit context 2 2 two_bases (semi token) halves started pushed
      finished (true ∷ false ∷ []) toy-GroupLaws (omega arith) (omega arith) refl
      (omega arith, (omega arith, (omega arith, (omega arith, tt)))) refl refl refl

abbrev rows : List (List (List Bool))
rows = ((true ∷ []) ∷ (false ∷ []) ∷ []) ∷ ((true ∷ []) ∷ (true ∷ []) ∷ []) ∷ []

run-products_example :
    (t : Session toy nothing) × (u : Session toy nothing) × (push_all toy nothing
        (row_pushes 0 rows)
        started
      ≡ (ok tt, t))
    × (finish toy nothing same_bit none t
        ≡ (ok (map (λ chunks. toy.msm (join chunks) two_bases) rows), u))
unfolding session_code le_bytes join Unspooled
run-products_example =
    run-products toy nothing same_bit context 2 2 two_bases (semi token) rows started toy-GroupLaws
      toy-StreamLaws (omega arith) (omega arith) tt refl refl (refl, (refl, tt)) refl

push_all-tally_example :
    (pushed.metrics.chunks ≡ started.metrics.chunks + 4)
    × (pushed.metrics.server_group_terms ≡ started.metrics.server_group_terms + total halves)
    × (pushed.metrics.working_scalar_peak ≤ 1)
unfolding session_code le_bytes total
push_all-tally_example =
    push_all-tally toy nothing 1 halves started pushed
      (omega arith, (omega arith, (omega arith, (omega arith, tt)))) (omega arith) (omega arith)
      (omega arith) refl
