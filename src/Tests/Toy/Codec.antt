-- ===== src/Tests/Toy/Codec.antt =====
-- A length-prefixed encoding of the token data, for the runs.
use thinwallet.Prelude.{
  ℕ, zero, suc, ◌≡◌, refl, ap, ◌∙◌, Option, none, some, List, [], ◌∷◌, ◌++◌, length, take, drop,
  take-append, drop-append, append_assoc, append-nil,
}
use thinwallet.Prelude.Bytes.{Bytes}
use thinwallet.Token.{
  TokenState, available, reserved, spent, burned, TokenBinding, TokenHeader, LifecycleRecord,
  LifecycleSnapshot, AuthenticatedLifecycleSnapshot,
}

-- A reader gives a value and what is left.
abbrev pub Reader : Type 0 → Type 0
Reader A = Bytes → Option (A × Bytes)

infixl 5 ◌>>=◌
abbrev pub ◌>>=◌ : {A B : Type 0} → Reader A → (A → Reader B) → Reader B
◌>>=◌ m f b = elim (m b) [ none ↦ none | some (a, rest) ↦ f a rest ]

abbrev pub done : {A : Type 0} → A → Reader A
done a b = some (a, b)

abbrev pub number : Reader ℕ
number [] = none
number (n ∷ b) = some (n, b)

abbrev split : ℕ → Reader Bytes
split n b = some (take n b, drop n b)

abbrev pub put : Bytes → Bytes
put x = length x ∷ x

abbrev pub field : Reader Bytes
field = do n ← number; split n

pub take_all : (x rest : Bytes) → take (length x) (x ++ rest) ≡ x
take_all x rest = take-append (length x) x rest refl

pub drop_all : (x rest : Bytes) → drop (length x) (x ++ rest) ≡ rest
drop_all x rest = drop-append (length x) x rest refl

pub take_end : (x : Bytes) → take (length x) x ≡ x
take_end [] = refl
take_end (n ∷ x) = ap (λ (t : Bytes). n ∷ t) (take_end x)

pub drop_end : (x : Bytes) → drop (length x) x ≡ []
drop_end [] = refl
drop_end (n ∷ x) = drop_end x

unfoldable pub state_code : TokenState → ℕ
state_code available = 0
state_code reserved = 1
state_code spent = 2
state_code burned = 3

unfoldable pub state_of : ℕ → TokenState
state_of zero = available
state_of (suc zero) = reserved
state_of (suc (suc zero)) = spent
state_of (suc (suc (suc n))) = burned

state_of-code : (s : TokenState) → state_of (state_code s) ≡ s
unfolding state_of state_code
state_of-code available = refl
state_of-code reserved = refl
state_of-code spent = refl
state_of-code burned = refl

pub then :
    {A C : Type 0} (m : Reader A) (b : Bytes) {rest : Bytes} {a : A} (f : A → Reader C)
    → m b ≡ some (a, rest)
    → (m >>= f) b ≡ f a rest
then {C} m b f h =
    ap (λ o. elim o as (λ _. Option (C × Bytes)) [ none ↦ none | some (a, rest) ↦ f a rest ]) h

pub field-put : (x rest : Bytes) → field (put x ++ rest) ≡ some (x, rest)
field-put x rest = simp (take_all, drop_all)

ruleset reading = (append_assoc, take_all, drop_all, state_of-code)

abbrev pub put_binding : TokenBinding → Bytes
put_binding b =
    b.q
    ∷ b.m
    ∷ (put b.basis_digest
        ++ (put b.backend_revision
            ++ (put b.relation_shape.relation_id
                ++ (put b.relation_shape.logical_commitment_id
                    ++ put b.relation_shape.layout_version))))

abbrev binding : Reader TokenBinding
binding = do
  q ← number
  m ← number
  basis ← field
  backend ← field
  relation ← field
  logical ← field
  layout ← field
  done (record {
    basis_digest = basis;
    backend_revision = backend;
    relation_shape = record {
      relation_id = relation;
      logical_commitment_id = logical;
      layout_version = layout;
    };
    q = q;
    m = m;
  })

binding-put : (b : TokenBinding) (rest : Bytes) → binding (put_binding b ++ rest) ≡ some (b, rest)
binding-put b rest = simp reading

abbrev put_record : LifecycleRecord → Bytes
put_record r =
    r.format_version
    ∷ r.store_generation
    ∷ state_code r.state
    ∷ (put r.tid ++ (put r.ctx_digest ++ (put r.sid ++ (put r.iid ++ put r.request_digest))))

abbrev lifecycle_record : Reader LifecycleRecord
lifecycle_record = do
  version ← number
  generation ← number
  state ← number
  tid ← field
  ctx ← field
  sid ← field
  iid ← field
  request ← field
  done (record {
    format_version = version;
    store_generation = generation;
    tid = tid;
    ctx_digest = ctx;
    state = state_of state;
    sid = sid;
    iid = iid;
    request_digest = request;
  })

record-put :
    (r : LifecycleRecord) (rest : Bytes) → lifecycle_record (put_record r ++ rest) ≡ some (r, rest)
record-put r rest = simp reading

abbrev put_records : List LifecycleRecord → Bytes
put_records [] = []
put_records (r ∷ rs) = put_record r ++ put_records rs

abbrev records : ℕ → Reader (List LifecycleRecord)
records zero = done []
records (suc n) = do r ← lifecycle_record; rs ← records n; done (r ∷ rs)

records-put :
    (rs : List LifecycleRecord) (rest : Bytes)
    → records (length rs) (put_records rs ++ rest) ≡ some (rs, rest)
records-put [] rest = refl
records-put (r ∷ rs) rest =
    ap (records (suc (length rs))) (append_assoc (put_record r) (put_records rs) rest)
    ∙ then lifecycle_record (put_record r ++ (put_records rs ++ rest))
        (λ x. do xs ← records (length rs); done (x ∷ xs)) (record-put r (put_records rs ++ rest))
    ∙ then (records (length rs)) (put_records rs ++ rest) (λ xs. done (r ∷ xs))
        (records-put rs rest)

records-put_all : (rs : List LifecycleRecord) → records (length rs) (put_records rs) ≡ some (rs, [])
records-put_all rs = rw append-nil at (records-put rs [])

abbrev pub put_snapshot : LifecycleSnapshot → Bytes
put_snapshot s = s.format_version ∷ s.store_generation ∷ length s.records ∷ put_records s.records

abbrev snapshot : Reader LifecycleSnapshot
snapshot = do
  version ← number
  generation ← number
  n ← number
  rs ← records n
  done (record { format_version = version; store_generation = generation; records = rs })

snapshot-put : (s : LifecycleSnapshot) → snapshot (put_snapshot s) ≡ some (s, [])
snapshot-put s =
    then (records (length s.records)) (put_records s.records)
      (λ rs. done (record s { records = rs })) (records-put_all s.records)

abbrev pub put_envelope : AuthenticatedLifecycleSnapshot → Bytes
put_envelope e = put e.tag ++ put_snapshot e.snapshot

abbrev envelope : Reader AuthenticatedLifecycleSnapshot
envelope = do tag ← field; s ← snapshot; done (record { snapshot = s; tag = tag })

abbrev pub whole {ℓ} : {A : Type ℓ} → Option (A × Bytes) → Option A
whole none = none
whole (some (a, [])) = some a
whole (some (a, b ∷ bs)) = none

abbrev pub get_envelope : Bytes → Option AuthenticatedLifecycleSnapshot
get_envelope b = whole (envelope b)

pub get_envelope-put : (e : AuthenticatedLifecycleSnapshot) → get_envelope (put_envelope e) ≡ some e
get_envelope-put e = ap whole (
    then field (put e.tag ++ put_snapshot e.snapshot)
      (λ t. do s ← snapshot; done (record { snapshot = s; tag = t }))
      (field-put e.tag (put_snapshot e.snapshot))
    ∙ then snapshot (put_snapshot e.snapshot) (λ s. done (record { snapshot = s; tag = e.tag }))
        (snapshot-put e.snapshot))

abbrev pub put_header : TokenHeader → Bytes
put_header h =
    h.protocol_version
    ∷ h.creation_epoch
    ∷ state_code h.state
    ∷ (put_binding h.binding ++ (put h.token_id ++ (put h.journal_reference ++ put h.key_id)))

abbrev header : Reader TokenHeader
header = do
  version ← number
  epoch ← number
  state ← number
  b ← binding
  id ← field
  journal ← field
  key ← field
  done (record {
    protocol_version = version;
    token_id = id;
    binding = b;
    creation_epoch = epoch;
    state = state_of state;
    journal_reference = journal;
    key_id = key;
  })

abbrev pub get_header : Bytes → Option TokenHeader
get_header b = whole (header b)

header-put : (h : TokenHeader) → header (put_header h) ≡ some (h, [])
header-put h =
    then binding
      (put_binding h.binding ++ (put h.token_id ++ (put h.journal_reference ++ put h.key_id)))
      (λ b. do
        id ← field
        journal ← field
        key ← field
        done (record h {
          token_id = id;
          binding = b;
          state = state_of (state_code h.state);
          journal_reference = journal;
          key_id = key;
        }))
      (binding-put h.binding (put h.token_id ++ (put h.journal_reference ++ put h.key_id)))
    ∙ simp (reading, take_end, drop_end)

pub get_header-put : (h : TokenHeader) → get_header (put_header h) ≡ some h
get_header-put h = ap whole (header-put h)
