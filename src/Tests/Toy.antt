-- ===== src/Tests/Toy.antt =====
-- A small instance of the third-party functions, with which the model runs: a length-prefixed
-- encoding for bincode, a checksum for the digests, a sealed checksum for the cipher, and the group
-- of two elements for the curve.
pub mod Codec
pub mod Stream
use mathlib.Core.Bool.{xor}
use mathlib.Core.Option
use thinwallet.Prelude.{
  ℕ, zero, suc, ◌+◌, ◌%◌, ◌≡◌, refl, sym, ap, ◌∙◌, Bool, true, false, ◌&&◌, Option, none, some,
  List, [], ◌∷◌, ◌++◌, length, replicate, ◌==◌, nat_eq, eq_refl, if◌then◌else◌, arith,
}
use thinwallet.Prelude.Bytes.{Bytes}
use thinwallet.Token.{TokenBinding}
use thinwallet.External.{
  External, BincodeLaws, CipherLaws, ManifestLaws, StreamLaws, GroupLaws, ScalarLaws,
}
use Codec.{
  put_header, get_header, put_binding, put_snapshot, put_envelope, get_envelope, get_header-put,
  get_envelope-put,
}
use Stream.{
  put_manifest, get_manifest, get_manifest-put, put_context, put_frame, get_frame, get_frame-put,
}

abbrev sum : Bytes → ℕ
sum [] = 0
sum (b ∷ bs) = b + sum bs

abbrev digest : Bytes → Bytes
digest b = (1 + sum b % 255) ∷ replicate 31 0

abbrev bit_bytes : Bool → Bytes
bit_bytes true = 1 ∷ replicate 31 0
bit_bytes false = replicate 32 0

abbrev bit_of : Bytes → Option Bool
bit_of [] = none
bit_of (b ∷ bs) = if b == 0 then some false else if b == 1 then some true else none

abbrev open_sealed : ℕ → Bytes → Option Bytes
open_sealed check [] = none
open_sealed check (t ∷ m) = if t == check + sum m then some m else none

abbrev combine : List Bool → List Bool → Bool
combine [] ps = false
combine (s ∷ ss) [] = false
combine (s ∷ ss) (p ∷ ps) = xor (s && p) (combine ss ps)

abbrev pub toy : External
toy = record {
  Point = Bool;
  Scalar = Bool;
  compress = bit_bytes;
  decompress = bit_of;
  identity = false;
  add_point = xor;
  sub_point = xor;
  msm = combine;
  zero_scalar = false;
  add_scalar = xor;
  mul_scalar = ◌&&◌;
  scalar_to_bytes = bit_bytes;
  scalar_from_canonical_bytes = bit_of;
  scalar_from_wide = λ b. sum b % 2 == 1;
  hmac_sha256 = λ key message. digest (key ++ message);
  hmac_sha512 = λ key message. digest (key ++ message);
  sha256 = digest;
  sha512 = digest;
  aead_encrypt = λ key nonce aad m. some ((sum (key ++ (nonce ++ aad)) + sum m) ∷ m);
  aead_decrypt = λ key nonce aad c. open_sealed (sum (key ++ (nonce ++ aad))) c;
  serialize_header = λ h. some (put_header h);
  deserialize_header = get_header;
  serialize_binding = λ version b. version ∷ put_binding b;
  serialize_snapshot = λ s. some (put_snapshot s);
  serialize_envelope = λ e. some (put_envelope e);
  deserialize_envelope = get_envelope;
  serialize_manifest = λ m. some (put_manifest m);
  deserialize_manifest = get_manifest;
  serialize_context = λ c. some (put_context c);
  serialize_request = λ c q m. some (q ∷ m ∷ put_context c);
  serialize_frame = λ f. some (put_frame f);
  deserialize_frame = get_frame;
}

some-inj : {A : Type 0} {a b : A} → ◌≡◌ {A = Option A} (some a) (some b) → a ≡ b
some-inj {a} {b} h = Option.some-injective a b h

pub toy-BincodeLaws : BincodeLaws toy
toy-BincodeLaws = record {
  header_back = λ h b e. ap get_header (sym (some-inj e)) ∙ get_header-put h;
  envelope_back = λ v b e. ap get_envelope (sym (some-inj e)) ∙ get_envelope-put v;
}

opens : (check : ℕ) (m : Bytes) → open_sealed check ((check + sum m) ∷ m) ≡ some m
opens check m = rw eq_refl

bit_of-bytes : (b : Bool) → bit_of (bit_bytes b) ≡ some b
unfolding nat_eq
bit_of-bytes true = refl
bit_of-bytes false = refl

length-bit_bytes : (b : Bool) → length (bit_bytes b) ≡ 32
length-bit_bytes true = refl
length-bit_bytes false = refl

pub toy-CipherLaws : CipherLaws toy
toy-CipherLaws = record {
  decrypt_back = λ key nonce aad m c e.
      ap (open_sealed (sum (key ++ (nonce ++ aad)))) (sym (some-inj e))
      ∙ opens (sum (key ++ (nonce ++ aad))) m;
  decompress_back = bit_of-bytes;
  compress_length = length-bit_bytes;
}

pub toy-ManifestLaws : ManifestLaws toy
toy-ManifestLaws = record {
  manifest_written = λ m. (put_manifest m, refl);
  manifest_back = λ m b e. ap get_manifest (sym (some-inj e)) ∙ get_manifest-put m;
}

pub toy-StreamLaws : StreamLaws toy
toy-StreamLaws = record {
  context_written = λ c. (put_context c, refl);
  request_written = λ c q m. (q ∷ m ∷ put_context c, refl);
  frame_written = λ f. (put_frame f, refl);
  frame_back = λ f b e. ap get_frame (sym (some-inj e)) ∙ get_frame-put f;
}

pub toy-ScalarLaws : ScalarLaws toy
toy-ScalarLaws = record { scalar_back = bit_of-bytes; scalar_length = length-bit_bytes }

bit_assoc : (a b c : Bool) → xor (xor a b) c ≡ xor a (xor b c)
unfolding xor
bit_assoc a b c = ground arith

bit_comm : (a b : Bool) → xor a b ≡ xor b a
unfolding xor
bit_comm a b = ground arith

bit-cancel : (a b : Bool) → xor (xor a b) b ≡ a
unfolding xor
bit-cancel a b = ground arith

bit-false : (a : Bool) → xor a false ≡ a
unfolding xor
bit-false a = ground arith

xor-same : (a : Bool) → xor false a ≡ a
unfolding xor
xor-same a = ground arith

-- The bit of a term, as `combine` computes it.
abbrev term : Bool → Bool → Bool
term s p = xor (s && p) false

term-xor : (s p q : Bool) → term s (xor p q) ≡ xor (term s p) (term s q)
unfolding xor
term-xor s p q = ground arith

xor-term : (s t p : Bool) → term (xor s t) p ≡ xor (term s p) (term t p)
unfolding xor
xor-term s t p = ground arith

and-term : (s t p : Bool) → term (s && t) p ≡ term s (term t p)
unfolding xor
and-term s t p = ground arith

term-false : (s : Bool) → term s false ≡ false
unfolding xor
term-false s = ground arith

pub toy-GroupLaws : GroupLaws toy
unfolding xor
toy-GroupLaws = record {
  add_point_assoc = bit_assoc;
  add_point_comm = bit_comm;
  identity-add = xor-same;
  add-sub = bit-cancel;
  msm-nil = refl;
  msm-cons = λ s ss p ps. rw (bit-false (s && p)) refl;
  zero-term = λ p. refl;
  add-term = xor-term;
  mul-term = and-term;
  term-identity = term-false;
  term-add = term-xor;
}
