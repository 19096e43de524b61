-- ===== src/Prelude/Redis.antt =====
-- The Redis structures that the scripts work on, as far as their documented behaviour is used:
-- a hash with numbers as fields (HGET, HSET, HDEL; the list itself is what HGETALL returns, whose
-- order Redis leaves open), a set (SISMEMBER, SADD, SREM), and a family of string keys.
use mediasoup_socket_io_audi.Prelude.{
  ℕ, ◌≡◌, refl, List, [], ◌∷◌, Option, none, some, Bool, true, false, ◌==◌, if◌then◌else◌, arith,
  has, ◌||◌, ◌&&◌, not,
}

abbrev pub Hash {ℓ} : Type ℓ → Type ℓ
Hash V = List (ℕ × V)

module _ {ℓ} {V : Type ℓ} where
  unfoldable pub hget : ℕ → Hash V → Option V
  hget k [] = none
  hget k ((j, v) ∷ m) = if j == k then some v else hget k m

  unfoldable pub hset : ℕ → V → Hash V → Hash V
  hset k v [] = (k, v) ∷ []
  hset k v ((j, w) ∷ m) = if j == k then (k, v) ∷ m else (j, w) ∷ hset k v m

  unfoldable pub hdel : ℕ → Hash V → Hash V
  hdel k [] = []
  hdel k ((j, w) ∷ m) = if j == k then hdel k m else (j, w) ∷ hdel k m

  -- Every field occurs once.
  abbrev pub Distinct : Hash V → Type ℓ
  Distinct [] = Unit
  Distinct ((k, v) ∷ m) = (hget k m ≡ none) × Distinct m

  pub hget-hset :
      (j k : ℕ) (v : V) (m : Hash V) → hget j (hset k v m) ≡ (if k == j then some v else hget j m)
  unfolding hget hset
  hget-hset j k v [] = refl
  hget-hset j k v ((i, w) ∷ m) = ground (arith, hget-hset j k v m)

  pub hget-hdel : (j k : ℕ) (m : Hash V) → hget j (hdel k m) ≡ (if k == j then none else hget j m)
  unfolding hget hdel
  hget-hdel j k [] = ground arith
  hget-hdel j k ((i, w) ∷ m) = ground (arith, hget-hdel j k m)

  pub hset-Distinct : (k : ℕ) (v : V) (m : Hash V) → Distinct m → Distinct (hset k v m)
  unfolding hget hset
  hset-Distinct k v [] d = (refl, tt)
  hset-Distinct k v ((i, w) ∷ m) d = ground (arith, hset-Distinct k v m d.1, hget-hset i k v m)

  pub hdel-Distinct : (k : ℕ) (m : Hash V) → Distinct m → Distinct (hdel k m)
  unfolding hget hdel
  hdel-Distinct k [] d = tt
  hdel-Distinct k ((i, w) ∷ m) d = ground (arith, hdel-Distinct k m d.1, hget-hdel i k m)

abbrev pub sismember : ℕ → List ℕ → Bool
sismember = has

unfoldable pub sadd : ℕ → List ℕ → List ℕ
sadd k s = if has k s then s else k ∷ s

unfoldable pub srem : ℕ → List ℕ → List ℕ
srem k [] = []
srem k (x ∷ s) = if x == k then srem k s else x ∷ srem k s

pub has-sadd : (j k : ℕ) (s : List ℕ) → has j (sadd k s) ≡ ((k == j) || has j s)
unfolding sadd
has-sadd j k s = ground arith

pub has-srem : (j k : ℕ) (s : List ℕ) → has j (srem k s) ≡ (not (k == j) && has j s)
unfolding srem
has-srem j k [] = ground arith
has-srem j k (x ∷ s) = ground (arith, has-srem j k s)

-- One key of a family is written (`some v`) or deleted (`none`).
abbrev pub update {ℓ} : {V : Type ℓ} → (ℕ → Option V) → ℕ → Option V → ℕ → Option V
update f k v j = if k == j then v else f j

-- How Redis treats a call: it answers, it fails before the script runs, or the answer is lost.
pub data Link : Type 0 where
  answers fails answer_lost : Link

-- What a call of Redis that makes `new` of `old` leaves, and whether its caller gets an answer.
abbrev pub after_call {ℓ} : {A : Type ℓ} → Link → A → A → A
after_call answers new old = new
after_call fails new old = old
after_call answer_lost new old = new

abbrev pub is_answered : Link → Bool
is_answered answers = true
is_answered fails = false
is_answered answer_lost = false

pub after_call_lem {ℓ} :
    {A : Type ℓ} (link : Link) (new old : A)
    → is_answered link ≡ true
    → after_call link new old ≡ new
after_call_lem answers new old h = refl
after_call_lem fails new old h = absurd (ground arith)
after_call_lem answer_lost new old h = refl
