-- ===== src/Tests/Messages.antt =====
-- Small instances of what messages call: the encoders, the ciphers and the derivations.
use qubitcrypt.Prelude.{
  ℕ, zero, suc, ◌*◌, leb, ◌≡◌, refl, ap, sym, subst, ◌∙◌, String, true, false, none, some, List, [],
  ◌∷◌, length, replicate, eq_of_some, if◌then◌else◌, same_bytes, same_bytes_refl, arith,
}
use qubitcrypt.Outcome.{Bytes}
use qubitcrypt.Asn1.Der.{Der}
use qubitcrypt.Kdf.{Crates}
use qubitcrypt.Kdf.Derived as Derived
use qubitcrypt.Cea as Cea
use qubitcrypt.Cea.{AesParameters, EncryptedContentInfo, Cipher, Openssl}
use qubitcrypt.Cea.Correct as CeaCorrect
use qubitcrypt.Tests.Codecs.{toy_der_with}
use qubitcrypt.Tests.Packing.{
  pack, unpack, unpack-pack, nth, number, tail_of, optional, read_optional, read-optional, place_of,
  text_at, text_at-place_of,
}

-- ML-KEM-768, the type of KEM recipients, HKDF with SHA-256, AES-128 for keys and for contents.
abbrev pub oids : List String
oids =
    "2.16.840.1.101.3.4.4.2" ∷ "1.2.840.113549.1.9.16.13.3" ∷ "1.2.840.113549.1.9.16.3.28"
    ∷ "2.16.840.1.101.3.4.1.5" ∷ "2.16.840.1.101.3.4.1.6" ∷ []

abbrev pub der : Der
der = toy_der_with (place_of oids) (text_at oids)

abbrev pub toy_kdfs : Crates
toy_kdfs = record {
  hkdf = λ h salt ikm info n.
      if leb n (255 * Derived.digest_length h) then some (replicate n 3) else none;
  kmac = λ s key custom input n. replicate n 4;
  Shake = λ s. ℕ;
  default = λ s. 0;
  write = λ s k b. some (suc k);
  read_exact = λ s k n. some (replicate n k);
}

length-fill : (n b : ℕ) → length (replicate n b) ≡ n
length-fill zero b = refl
length-fill (suc n) b = ap suc (length-fill n b)

pub toy_kdfs-IsLawful : Derived.IsLawful toy_kdfs
toy_kdfs-IsLawful = record {
  hkdf_gives = λ h salt ikm info n short.
      let e : leb n (255 * Derived.digest_length h) ≡ true = ground arith in
      (replicate n 3, rw (e) refl, length-fill n 3);
  hkdf_refuses = λ h salt ikm info n long.
      let e : leb n (255 * Derived.digest_length h) ≡ false = ground arith in rw (e) refl;
  kmac_length = λ s key custom input n. length-fill n 4;
  writes = λ s k b. (suc k, refl);
  reads = λ s k n. (replicate n k, refl, length-fill n k);
}

-- A tag is the first byte of the key sixteen times; the text is not changed.
abbrev tag_of : Bytes → Bytes
tag_of key = replicate 16 (number key)

abbrev pub toy_symm : Openssl ℕ
toy_symm = record {
  iv_len = λ c. some 12;
  key_len = λ c. 16;
  encrypt_aead = λ c key nonce aad text. some (text, tag_of key);
  decrypt_aead = λ c key nonce aad ct tag. if same_bytes (tag_of key) tag then some ct else none;
  encrypt = λ c key nonce text. some (0 ∷ text);
  decrypt = λ c key nonce ct. read_optional ct;
  rand_bytes = λ n w. (some (replicate n w), suc w);
}

abbrev pub write_content : EncryptedContentInfo der Bytes → Bytes
write_content x =
    x.content_type ∷ x.algorithm ∷ pack (optional x.parameters ∷ optional x.encrypted_content ∷ [])

abbrev content_of : ℕ → ℕ → List Bytes → EncryptedContentInfo der Bytes
content_of t a l = record {
  content_type = t;
  algorithm = a;
  parameters = read_optional (nth 0 l);
  encrypted_content = read_optional (nth 1 l);
}

abbrev pub read_content : Bytes → EncryptedContentInfo der Bytes
read_content b = content_of (number b) (number (tail_of b)) (unpack 2 (tail_of (tail_of b)))

pub read-content : (x : EncryptedContentInfo der Bytes) → read_content (write_content x) ≡ x
read-content x =
    ap (content_of x.content_type x.algorithm)
      (unpack-pack (optional x.parameters ∷ optional x.encrypted_content ∷ []))
    ∙ (λ i. record {
      content_type = x.content_type;
      algorithm = x.algorithm;
      parameters = read-optional x.parameters i;
      encrypted_content = read-optional x.encrypted_content i;
    })

abbrev pub toy_contents : Cea.Codecs der
toy_contents = record {
  Any = Bytes;
  any_from_der = λ b. some b;
  any_to_der = λ b. some b;
  encode_parameters = λ p. some (p.aes_icv_len ∷ p.aes_nonce);
  decode_parameters = λ b. some (record { aes_nonce = tail_of b; aes_icv_len = number b });
  encode_octets = λ b. some b;
  decode_octets = λ b. some b;
  encode_content = λ x. some (write_content x);
  decode_content = λ b. some (read_content b);
  id_data = 9;
}

pub toy_contents-IsLawful : CeaCorrect.IsLawful der toy_contents toy_symm
toy_contents-IsLawful = record {
  any = λ b a h. sym h;
  parameters = λ p b h. ap toy_contents.decode_parameters (sym (eq_of_some h));
  octets = λ s b h. sym h;
  content = λ x b h.
      ap toy_contents.decode_content (sym (eq_of_some h)) ∙ ap (λ y. some y) (read-content x);
  oid_text = λ t i h. text_at-place_of oids (Cea.get_oid t) i h;
  aead = λ k key nonce aad text ct tag h.
      let tagged : tag_of key ≡ tag = ap (λ x. x.1) (eq_of_some h) in
      (
        ap length (sym tagged),
        subst (λ x. (if same_bytes (tag_of key) x then some ct else none) ≡ some text) tagged
            (rw (same_bytes_refl (tag_of key)) (ap (λ x. some x.0) (sym (eq_of_some h)))),
      );
  cbc = λ k key nonce text ct h. ap read_optional (sym (eq_of_some h));
}
