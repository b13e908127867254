-- ===== src/Tests/Params.antt =====
-- Concrete values for the parameters of the models: a hash, a JSON codec, a clock, a source of random
-- numbers and a file system.
use percas.Base.{
  ℕ, zero, suc, ◌+◌, ◌*◌, ◌^◌, ◌%◌, ◌<◌, List, [], ◌∷◌, Option, none, some, and_then, if◌then◌else◌,
  ◌==◌, ◌≡◌, refl, ap, ◌∙◌, arith, false, some-injective,
}
use percas.Text.{String}
use percas.Bytes.{AsRef, Mur3}
use percas.FileSystem.{FileSystem}
use percas.Node.{PersistentNodeInfo, NodeJson}
use percas.Gossip.Tasks.{Jiff}
use percas.Gossip.Tick.{Rng}
use Prim.Native.Char.{code}

abbrev pub polynomial : List ℕ → ℕ → ℕ
polynomial [] seed = seed % 2 ^ 32
polynomial (b ∷ rest) seed = polynomial rest ((seed * 31 + b) % 2 ^ 32)

pub polynomial-lt : (bytes : List ℕ) (seed : ℕ) → polynomial bytes seed < 2 ^ 32
polynomial-lt [] seed = omega arith
polynomial-lt (b ∷ rest) seed = polynomial-lt rest ((seed * 31 + b) % 2 ^ 32)

instance abbrev pub toy_mur3 : Mur3
toy_mur3 = record { murmurhash3_x86_32 = polynomial; hash_lt = polynomial-lt }

instance abbrev pub nat_as_ref : AsRef ℕ
nat_as_ref = record { as_ref = λ n. n ∷ [] }

instance abbrev pub toy_jiff : Jiff
toy_jiff = record { timestamp_max = 10 ^ 20 }

abbrev first_of_range : ℕ → Option ℕ
first_of_range zero = none
first_of_range (suc n) = some 0

instance abbrev pub toy_rng : Rng
toy_rng = record {
  random_range = first_of_range;
  empty_range = refl;
  in_range = λ n. (0, refl, omega arith);
}

-- A number in unary with an end mark, before the rest of a text.
abbrev unary : ℕ → String → String
unary zero rest = String.◌∷◌ "b" rest
unary (suc n) rest = String.◌∷◌ "a" (unary n rest)

abbrev read_unary : ℕ → String → Option (ℕ × String)
read_unary n String.[] = none
read_unary n (String.◌∷◌ c s) = if code c == b'a' then read_unary (suc n) s else some (n, s)

read_unary-unary : (k n : ℕ) (rest : String) → read_unary k (unary n rest) ≡ some (k + n, rest)
read_unary-unary k zero rest = ap (λ n. some (n, rest)) (omega arith)
read_unary-unary k (suc n) rest =
    read_unary-unary (suc k) n rest ∙ ap (λ n. some (n, rest)) (omega arith)

abbrev pub encode : PersistentNodeInfo → String
encode info = unary info.node_id (unary info.incarnation info.cluster_id)

abbrev decode_rest : ℕ → String → Option PersistentNodeInfo
decode_rest id s =
    and_then (read_unary 0 s)
      (λ r. some (record { node_id = id; cluster_id = r.1; incarnation = r.0 }))

abbrev decode : String → Option PersistentNodeInfo
decode s = and_then (read_unary 0 s) (λ r. decode_rest r.0 r.1)

zero_add : (n : ℕ) → 0 + n ≡ n
zero_add n = omega arith

pub decode-encode :
    (info : PersistentNodeInfo) (text : String)
    → some (encode info) ≡ some text
    → decode text ≡ some info
decode-encode info text e =
    rw
      (
        ← some-injective e,
        read_unary-unary 0 info.node_id (unary info.incarnation info.cluster_id),
        read_unary-unary 0 info.incarnation info.cluster_id,
        zero_add info.node_id,
        zero_add info.incarnation,
      )
      refl

instance abbrev pub toy_json : NodeJson
toy_json = record {
  to_string_pretty = λ info. some (encode info);
  from_str = decode;
  from_str-to_string_pretty = decode-encode;
}

-- An empty disk on which nothing fails.
abbrev pub empty_disk : FileSystem
empty_disk = record {
  content = λ p. none;
  read_fails = λ p. false;
  write_fails = λ p. false;
  after_failure = λ p t. none;
}
