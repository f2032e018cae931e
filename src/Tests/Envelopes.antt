-- ===== src/Tests/Envelopes.antt =====
-- A small instance of all that messages use, with its laws.
use qubitcrypt.Prelude.{
  ◌==◌, true, subst, Memᴰ, ℕ, zero, suc, ◌≡◌, refl, ap, sym, ◌∙◌, Option, none, some, List, [], ◌∷◌,
  eq_of_some, map,
}
use qubitcrypt.Outcome.{Bytes}
use qubitcrypt.Kem.Manager as KemManager
use qubitcrypt.Store.{RecipientIdentifier, issuer_and_serial_number, subject_key_identifier}
use qubitcrypt.Cms.{
  KemRecipientInfo, RecipientInfo, ori, ktri, kari, kekri, pwri, Codecs, Crypto, AuthEnvelopedData,
}
use qubitcrypt.Cms.Kemri.Recovered.{IsLawful}
use qubitcrypt.Cms.Sealed.Roundtrip.{IsEncoder}
use qubitcrypt.Tests.Codecs.{toy_der_with-IsLawful}
use qubitcrypt.Tests.Packing.{
  pack, unpack, unpack-pack, pack_all, unpack_all, nth, number, tail_of, optional, read_optional,
  read-optional, place_of, text_at, text_at-place_of,
}
use qubitcrypt.Tests.Kems
use qubitcrypt.Tests.KeyExamples.{write_pem, read_pem}
use qubitcrypt.Tests.ManagerExamples
use qubitcrypt.Tests.WrapExamples.{toy_aes, toy_aes-IsLawful}
use qubitcrypt.Tests.Messages.{
  write_content, read_content, read-content, oids, der, toy_kdfs, toy_symm, toy_contents,
  toy_contents-IsLawful,
}
use qubitcrypt.Kdf as Kdf
use qubitcrypt.Wrap as Wrap

abbrev write_rid : RecipientIdentifier → Bytes
write_rid (subject_key_identifier s) = 0 ∷ s
write_rid (issuer_and_serial_number i n) = 1 ∷ pack (i ∷ n ∷ [])

abbrev rid_of : ℕ → Bytes → RecipientIdentifier
rid_of zero b = subject_key_identifier b
rid_of (suc n) b = issuer_and_serial_number (nth 0 (unpack 2 b)) (nth 1 (unpack 2 b))

abbrev read_rid : Bytes → RecipientIdentifier
read_rid b = rid_of (number b) (tail_of b)

read-rid : (r : RecipientIdentifier) → read_rid (write_rid r) ≡ r
read-rid (subject_key_identifier s) = refl
read-rid (issuer_and_serial_number i n) = λ j.
    issuer_and_serial_number (nth 0 (unpack-pack (i ∷ n ∷ []) j))
      (nth 1 (unpack-pack (i ∷ n ∷ []) j))

abbrev Info : Type 0
Info = KemRecipientInfo ℕ Bytes Bytes

abbrev parts : Info → List Bytes
parts k =
    write_rid k.rid
    ∷ (k.version ∷ k.kem.oid ∷ k.kdf.oid ∷ k.kek_length ∷ k.wrap.oid ∷ [])
    ∷ k.kem_ct
    ∷ k.encrypted_key
    ∷ optional k.kem.parameters
    ∷ optional k.kdf.parameters
    ∷ optional k.ukm
    ∷ optional k.wrap.parameters
    ∷ []

abbrev info_of : List Bytes → Info
info_of l = record {
  version = number (nth 1 l);
  rid = read_rid (nth 0 l);
  kem = record { oid = number (tail_of (nth 1 l)); parameters = read_optional (nth 4 l) };
  kem_ct = nth 2 l;
  kdf = record { oid = number (tail_of (tail_of (nth 1 l))); parameters = read_optional (nth 5 l) };
  kek_length = number (tail_of (tail_of (tail_of (nth 1 l))));
  ukm = read_optional (nth 6 l);
  wrap = record {
    oid = number (tail_of (tail_of (tail_of (tail_of (nth 1 l)))));
    parameters = read_optional (nth 7 l);
  };
  encrypted_key = nth 3 l;
}

info_of-parts : (k : Info) → info_of (parts k) ≡ k
info_of-parts k = λ i. record {
  version = k.version;
  rid = read-rid k.rid i;
  kem = record { oid = k.kem.oid; parameters = read-optional k.kem.parameters i };
  kem_ct = k.kem_ct;
  kdf = record { oid = k.kdf.oid; parameters = read-optional k.kdf.parameters i };
  kek_length = k.kek_length;
  ukm = read-optional k.ukm i;
  wrap = record { oid = k.wrap.oid; parameters = read-optional k.wrap.parameters i };
  encrypted_key = k.encrypted_key;
}

abbrev Ri : Type 0
Ri = RecipientInfo ℕ Bytes

abbrev write_ri : Ri → Bytes
write_ri (ori o) = 0 ∷ o.ori_type ∷ o.ori_value
write_ri (ktri b) = 1 ∷ b
write_ri (kari b) = 2 ∷ b
write_ri (kekri b) = 3 ∷ b
write_ri (pwri b) = 4 ∷ b

abbrev ri_of : ℕ → Bytes → Ri
ri_of zero b = ori (record { ori_type = number b; ori_value = tail_of b })
ri_of (suc zero) b = ktri b
ri_of (suc (suc zero)) b = kari b
ri_of (suc (suc (suc zero))) b = kekri b
ri_of (suc (suc (suc (suc n)))) b = pwri b

abbrev read_ri : Bytes → Ri
read_ri b = ri_of (number b) (tail_of b)

read-ri : (r : Ri) → read_ri (write_ri r) ≡ r
read-ri (ori o) = refl
read-ri (ktri b) = refl
read-ri (kari b) = refl
read-ri (kekri b) = refl
read-ri (pwri b) = refl

read-ris : (rs : List Ri) → map read_ri (map write_ri rs) ≡ rs
read-ris [] = refl
read-ris (r ∷ rs) = λ i. read-ri r i ∷ read-ris rs i

-- Attributes and originators are bytes.
abbrev Message : Type 0
Message = AuthEnvelopedData der toy_contents Bytes Bytes

abbrev pub message_parts : Message → List Bytes
message_parts x =
    (x.version ∷ [])
    ∷ optional x.originator_info
    ∷ pack_all (map write_ri x.recip_infos)
    ∷ write_content x.auth_encrypted_content
    ∷ optional x.auth_attrs
    ∷ x.mac
    ∷ optional x.unauth_attrs
    ∷ []

abbrev message_of : List Bytes → Message
message_of l = record {
  version = number (nth 0 l);
  originator_info = read_optional (nth 1 l);
  recip_infos = map read_ri (unpack_all (nth 2 l));
  auth_encrypted_content = read_content (nth 3 l);
  auth_attrs = read_optional (nth 4 l);
  mac = nth 5 l;
  unauth_attrs = read_optional (nth 6 l);
}

message_of-parts : (x : Message) → message_of (message_parts x) ≡ x
message_of-parts x = λ i. record {
  version = x.version;
  originator_info = read-optional x.originator_info i;
  recip_infos =
      (ap (map read_ri) (unpack-pack (map write_ri x.recip_infos)) ∙ read-ris x.recip_infos) i;
  auth_encrypted_content = read-content x.auth_encrypted_content i;
  auth_attrs = read-optional x.auth_attrs i;
  mac = x.mac;
  unauth_attrs = read-optional x.unauth_attrs i;
}

abbrev info_in : Bytes → Option (ℕ × Bytes)
info_in [] = none
info_in (n ∷ b) = some (n, b)

abbrev toy_codecs : Codecs der toy_contents
toy_codecs = record {
  Originator = Bytes;
  Attribute = Bytes;
  Attributes = Bytes;
  no_attributes = [];
  insert = λ a b. some (pack (a ∷ b ∷ []));
  encode_attributes = λ b. some b;
  encode_other_info = λ k. some (k.wrap.oid ∷ k.kek_length ∷ optional k.ukm);
  encode_kemri = λ k. some (pack (parts k));
  decode_kemri = λ b. some (info_of (unpack 8 b));
  recipient_infos = λ rs. some rs;
  decode_enveloped = λ b. none;
  encode_auth_enveloped = λ x. some (pack (message_parts x));
  decode_auth_enveloped = λ b. some (message_of (unpack 7 b));
  encode_content_info = λ x. some (x.0 ∷ x.1);
  decode_content_info = info_in;
  same_oid = λ x y. x == y;
  id_enveloped_data = 1;
  id_ct_auth_enveloped_data = 2;
}

abbrev pub toy_kems : KemManager.Primitives ℕ ℕ
toy_kems = record {
  der = der;
  hashes = Kems.toy.hashes;
  from_entropy = Kems.toy.from_entropy;
  ml_kem_crate = Kems.toy.ml_kem_crate;
  openssl = Kems.toy.openssl;
  candidates = Kems.toy.candidates;
  rsa_crate = Kems.toy.rsa_crate;
}

abbrev pub toy_crypto : Crypto ℕ ℕ
toy_crypto = record {
  kems = toy_kems;
  dsas = ManagerExamples.toy;
  keys = record {
    encode_public_info = λ k. some (k.oid ∷ k.public_key);
    decode_public_info =
        λ b. some (record { oid = number b; parameters = none; public_key = tail_of b });
    pem_encode = write_pem;
    pem_parse = read_pem 0;
    from_utf8 = λ b. none;
  };
  kdfs = toy_kdfs;
  aes = toy_aes;
  symm = toy_symm;
  contents = toy_contents;
  codecs = toy_codecs;
  subject_key_identifier = λ b. some b;
  authority_key_identifier = λ b. none;
  key_usage = λ b. some true;
  basic_constraints = λ x. none;
  tbs_to_der = λ c. none;
}

pub toy_crypto-IsLawful : IsLawful toy_crypto
toy_crypto-IsLawful = record {
  kems = record {
    der = toy_der_with-IsLawful (place_of oids) (text_at oids);
    ml_kem_crate = Kems.toy-IsLawful.ml_kem_crate;
    openssl = Kems.toy-IsLawful.openssl;
    rsa_crate = Kems.toy-IsLawful.rsa_crate;
  };
  aes = toy_aes-IsLawful;
  contents = toy_contents-IsLawful;
  kemri = λ k b h.
      ap (λ x. some (info_of (unpack 8 x))) (sym (eq_of_some h))
      ∙ (ap (λ l. some (info_of l)) (unpack-pack (parts k)) ∙ ap (λ x. some x) (info_of-parts k));
  kdf_text = λ t o h. text_at-place_of oids (Kdf.get_oid t) o h;
  wrap_text = λ t o h. text_at-place_of oids (Wrap.get_oid t) o h;
}

pub toy_crypto-IsEncoder : IsEncoder toy_crypto
toy_crypto-IsEncoder = record {
  auth_enveloped = λ x b h.
      ap (λ y. some (message_of (unpack 7 y))) (sym (eq_of_some h))
      ∙ (ap (λ l. some (message_of l)) (unpack-pack (message_parts x))
          ∙ ap (λ y. some y) (message_of-parts x));
  kept = λ xs ys h r m. subst (Memᴰ r) (eq_of_some h) m;
  no_others = λ xs ys h r m. subst (Memᴰ r) (sym (eq_of_some h)) m;
}
