-- ===== src/Kem/Manager/Built.antt =====
-- kem/kem_manager.rs: which types `KemManager::new` builds a manager for.
use qubitcrypt.Prelude.{ℕ, suc, true, false, ◌≡◌, refl, List, [], ◌∷◌}
use qubitcrypt.Outcome.{Outcome, ok, err, panic, diverges}
use qubitcrypt.Kem.Types.{KemType, contains}
use qubitcrypt.Kem.Types.{
  ml_kem512, ml_kem768, ml_kem1024, rsa_oaep2048, rsa_oaep3072, rsa_oaep4096, p256, p384, x25519,
  brainpool_p256r1, brainpool_p384r1, x448, ml_kem512_p256, ml_kem512_brainpool_p256r1,
  ml_kem512_x25519, ml_kem512_rsa2048, ml_kem512_rsa3072, ml_kem768_p256, xwing, ml_kem768_rsa2048,
  ml_kem768_rsa3072, ml_kem768_rsa4096, ml_kem768_x25519, ml_kem768_p384,
  ml_kem768_brainpool_p256r1, ml_kem1024_p384, ml_kem1024_brainpool_p384r1, ml_kem1024_x448,
}
use qubitcrypt.Kem.Info.{KemInfo, kem_info}
use qubitcrypt.Kem.Manager.{KemManager, ml, rsa, ec, composite, new}

-- The `kem_info` field of the manager of each family.
unfoldable pub info_of : KemManager → KemInfo
info_of (ml info) = info
info_of (rsa info) = info
info_of (ec m) = m.info
info_of (composite info trad pq k) = info

-- The types that stand in none of the four lists of kem_manager.rs.
unfoldable pub left_out : List KemType
left_out =
    ml_kem512_p256 ∷ ml_kem512_brainpool_p256r1 ∷ ml_kem512_x25519 ∷ ml_kem512_rsa2048
    ∷ ml_kem512_rsa3072 ∷ ml_kem768_p256 ∷ xwing ∷ []

-- What `new` should give: a manager for the type, or the panic of the last arm.
unfoldable pub Builds : KemType → Outcome KemManager → Type 0
unfolding info_of left_out
Builds t (ok m) = (contains left_out t ≡ false) × (info_of m ≡ kem_info t)
Builds t panic = contains left_out t ≡ true
Builds t (err e) = ⊥
Builds t diverges = ⊥

-- `KemManager::new` builds a manager, with the information of its type, for each of the types
-- but the seven left out, and panics at those; this with any fuel from 2.
pub new-Builds : (n : ℕ) (t : KemType) → Builds t (new (suc (suc n)) t)
unfolding Builds new
new-Builds n ml_kem512 = (refl, refl)
new-Builds n ml_kem768 = (refl, refl)
new-Builds n ml_kem1024 = (refl, refl)
new-Builds n rsa_oaep2048 = (refl, refl)
new-Builds n rsa_oaep3072 = (refl, refl)
new-Builds n rsa_oaep4096 = (refl, refl)
new-Builds n p256 = (refl, refl)
new-Builds n p384 = (refl, refl)
new-Builds n x25519 = (refl, refl)
new-Builds n brainpool_p256r1 = (refl, refl)
new-Builds n brainpool_p384r1 = (refl, refl)
new-Builds n x448 = (refl, refl)
new-Builds n ml_kem512_p256 = refl
new-Builds n ml_kem512_brainpool_p256r1 = refl
new-Builds n ml_kem512_x25519 = refl
new-Builds n ml_kem512_rsa2048 = refl
new-Builds n ml_kem512_rsa3072 = refl
new-Builds n ml_kem768_p256 = refl
new-Builds n xwing = refl
new-Builds n ml_kem768_rsa2048 = (refl, refl)
new-Builds n ml_kem768_rsa3072 = (refl, refl)
new-Builds n ml_kem768_rsa4096 = (refl, refl)
new-Builds n ml_kem768_x25519 = (refl, refl)
new-Builds n ml_kem768_p384 = (refl, refl)
new-Builds n ml_kem768_brainpool_p256r1 = (refl, refl)
new-Builds n ml_kem1024_p384 = (refl, refl)
new-Builds n ml_kem1024_brainpool_p384r1 = (refl, refl)
new-Builds n ml_kem1024_x448 = (refl, refl)
