-- ===== src/Tests/DsaExamples.antt =====
-- The signature theorems at a hybrid of two small schemes.
use qubitcrypt.Prelude.{ℕ, ◌≡◌, ◌↔◌, true, [], ◌∷◌}
use qubitcrypt.Outcome.{Bytes, ok}
use qubitcrypt.Asn1.CompositePublicKey
use qubitcrypt.Asn1.CompositePrivateKey
use qubitcrypt.Dsa.Types
use qubitcrypt.Dsa.Types.{ml_dsa65, ed25519_sha512, ml_dsa65_ed25519_sha512}
use qubitcrypt.Dsa.Info.{DsaInfo, dsa_info}
use qubitcrypt.Dsa.Trait.{Dsa}
use qubitcrypt.Dsa.Signature
use qubitcrypt.Dsa.Signature.{signature-round_trip}
use qubitcrypt.Dsa.Composite.{sha512, verify}
use qubitcrypt.Dsa.Composite.Verify.{Accepts, verify_iff}
use qubitcrypt.Tests.Codecs.{toy_der}
use qubitcrypt.Tests.Signatures.{toy_dsa, toy_hasher}

abbrev trad : Dsa ℕ ℕ
trad = toy_dsa (dsa_info ed25519_sha512)

abbrev pq : Dsa ℕ ℕ
pq = toy_dsa (dsa_info ml_dsa65)

abbrev info : DsaInfo
info = dsa_info ml_dsa65_ed25519_sha512

abbrev pk : Bytes
pk = 1 ∷ 6 ∷ 5 ∷ []

abbrev sk : Bytes
sk = 3 ∷ 1 ∷ 1 ∷ 6 ∷ 1 ∷ 1 ∷ 5 ∷ []

abbrev msg : Bytes
msg = 9 ∷ 8 ∷ []

abbrev pq_sig : Bytes
pq_sig = 6 ∷ 6 ∷ 1 ∷ 1 ∷ 9 ∷ 9 ∷ []

abbrev trad_sig : Bytes
trad_sig = 5 ∷ 6 ∷ 1 ∷ 1 ∷ 9 ∷ 9 ∷ []

abbrev sig : Bytes
sig = 6 ∷ 6 ∷ 6 ∷ 1 ∷ 1 ∷ 9 ∷ 9 ∷ 5 ∷ 6 ∷ 1 ∷ 1 ∷ 9 ∷ 9 ∷ []

verify_iff_example :
    (verify toy_der toy_hasher info trad pq sha512 pk msg sig ≡ ok true)
    ↔ Accepts toy_der toy_hasher info trad pq sha512 pk msg sig
verify_iff_example = verify_iff toy_der toy_hasher info trad pq sha512 pk msg sig
