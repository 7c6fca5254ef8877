-- ===== src/Examples/Packages.antt =====
-- Small instances of the packages: PINs between dollar signs, readable tokens, and a dict of
-- counts.
use table_queue.Common.{
  ℕ, zero, suc, ◌+◌, ◌≡◌, ◌≤◌, refl, sym, ap, subst, ◌∙◌, Bool, true, false, ◌&&◌, Option, none,
  some, List, [], ◌∷◌, ◌++◌, Text, text_eq, text_eq_self, text_eq_iff, text_eq_comm, strip, lstrip,
  is_space, length, take, drop, leb, if◌then◌else◌, arith, inl, inr, Bool-cases, any_of,
}
use mathlib.Core.List.{reverse, reverse-append, reverse-cons, reverse-reverse}
use table_queue.Auth.Crypto.{Bcrypt, Jwt, Claims}
use table_queue.RateLimit.Storage.{Counters, Dict, IsPaired, Unique, MemoryStorage, keys, drop_key}

abbrev hashed : Text → Text
hashed pin = b'$' ∷ (pin ++ b'$' ∷ [])

reverse-hashed : (pin : Text) → reverse (hashed pin) ≡ b'$' ∷ (reverse pin ++ b'$' ∷ [])
reverse-hashed pin =
    reverse-cons b'$' (pin ++ b'$' ∷ []) ∙ ap (λ s. s ++ b'$' ∷ []) (reverse-append pin (b'$' ∷ []))

pub strip-hashed : (pin : Text) → strip (hashed pin) ≡ hashed pin
unfolding strip lstrip is_space
strip-hashed pin =
    ap (λ s. reverse (lstrip s)) (reverse-hashed pin)
    ∙ ap reverse (sym (reverse-hashed pin))
    ∙ reverse-reverse (hashed pin)

abbrev pub dollars : Bcrypt
dollars = record {
  hashpw = λ pin salt. hashed pin;
  checkpw = λ pin hash. text_eq (hashed pin) hash;
  checkpw-hashpw = λ pin salt. text_eq_self (hashed pin);
  strip-hashpw = λ pin salt. strip-hashed pin;
  hashpw_pos = λ pin salt. omega arith;
}

-- A text that may be absent, with its length in front.
abbrev put_text : Option Text → Text → Text
put_text none rest = 0 ∷ rest
put_text (some t) rest = suc (length t) ∷ (t ++ rest)

abbrev put_number : Option ℕ → Text → Text
put_number none rest = 0 ∷ rest
put_number (some n) rest = suc n ∷ rest

abbrev read_text : Text → Option Text × Text
read_text [] = (none, [])
read_text (zero ∷ rest) = (none, rest)
read_text (suc n ∷ rest) = (some (take n rest), drop n rest)

abbrev read_number : Text → Option ℕ × Text
read_number [] = (none, [])
read_number (zero ∷ rest) = (none, rest)
read_number (suc n ∷ rest) = (some n, rest)

take-append : (t rest : Text) → take (length t) (t ++ rest) ≡ t
take-append [] rest = refl
take-append (c ∷ t) rest = ap (◌∷◌ c) (take-append t rest)

drop-append : (t rest : Text) → drop (length t) (t ++ rest) ≡ rest
drop-append [] rest = refl
drop-append (c ∷ t) rest = drop-append t rest

read-put_text : (t : Option Text) (rest : Text) → read_text (put_text t rest) ≡ (t, rest)
read-put_text none rest = refl
read-put_text (some t) rest = rw (take-append t rest, drop-append t rest) refl

read-put_number : (n : Option ℕ) (rest : Text) → read_number (put_number n rest) ≡ (n, rest)
read-put_number none rest = refl
read-put_number (some n) rest = refl

abbrev signed : Claims → Text → Text
signed claims key =
    put_text claims.sub (put_text claims.role (put_number claims.iat (put_number claims.exp key)))

abbrev opened : Text → Claims × Text
opened token =
    let sub = read_text token in
    let role = read_text sub.1 in
    let iat = read_number role.1 in
    let exp = read_number iat.1 in
    (record { sub = sub.0; role = role.0; iat = iat.0; exp = exp.0 }, exp.1)

pub opened-signed : (claims : Claims) (key : Text) → opened (signed claims key) ≡ (claims, key)
opened-signed claims key =
    rw
      (read-put_text claims.sub
        (put_text claims.role (put_number claims.iat (put_number claims.exp key))))
      (rw (read-put_text claims.role (put_number claims.iat (put_number claims.exp key))) (
        rw (read-put_number claims.iat (put_number claims.exp key))
          (rw (read-put_number claims.exp key) refl)))

abbrev is_live : ℕ → Option ℕ → Bool
is_live now none = true
is_live now (some exp) = leb now exp

abbrev checked : ℕ → Text → Claims × Text → Option Claims
checked now key found =
    if text_eq found.1 key && is_live now found.0.exp then some found.0 else none

pub checked_key :
    (now : ℕ) (claims found : Claims) (key other : Text)
    → checked now other (claims, key) ≡ some found
    → key ≡ other
checked_key now claims found key other h = (text_eq_iff key other).0 (ground arith)

pub checked_self :
    (now exp : ℕ) (claims : Claims) (key : Text)
    → claims.exp ≡ some exp
    → now ≤ exp
    → checked now key (claims, key) ≡ some claims
checked_self now exp claims key e h = rw (text_eq_self key, e) (ground arith)

abbrev pub readable : Jwt
readable = record {
  encode = signed;
  decode = λ now token key. checked now key (opened token);
  decode-encode = λ now exp claims key e h.
      ap (checked now key) (opened-signed claims key) ∙ checked_self now exp claims key e h;
  decode_key = λ now claims found key other h.
      checked_key now claims found key other
        (ap (checked now other) (sym (opened-signed claims key)) ∙ h);
}

-- A fixed-window counter: a window that is open counts on, any other starts at the end of the dict.
abbrev counts : Text → Dict ℕ → Bool
counts key d = any_of (λ other. text_eq other key) (keys d)

abbrev set_value : Text → (ℕ → ℕ) → ℕ → Dict ℕ → Dict ℕ
set_value key change value [] = (key, value) ∷ []
set_value key change value (item ∷ d) =
    if text_eq item.0 key then (item.0, change item.1) ∷ d else item ∷ set_value key change value d

abbrev add_key : Text → List Text → List Text
add_key key [] = key ∷ []
add_key key (k ∷ ks) = if text_eq k key then k ∷ ks else k ∷ add_key key ks

keys-set_value :
    (key : Text) (change : ℕ → ℕ) (value : ℕ) (d : Dict ℕ)
    → keys (set_value key change value d) ≡ add_key key (keys d)
keys-set_value key change value [] = refl
keys-set_value key change value (item ∷ d) = ground (arith, keys-set_value key change value d)

any_of-add_key :
    (k key : Text) (ks : List Text)
    → text_eq k key ≡ false
    → any_of (λ other. text_eq other k) ks ≡ false
    → any_of (λ other. text_eq other k) (add_key key ks) ≡ false
any_of-add_key k key [] n h = rw (text_eq_comm key k, n) refl
any_of-add_key k key (x ∷ ks) n h = ground (arith, any_of-add_key k key ks)

add_key-Unique : (key : Text) (ks : List Text) → Unique ks → Unique (add_key key ks)
add_key-Unique key [] u = (refl, tt)
add_key-Unique key (k ∷ ks) u = elim (Bool-cases (text_eq k key)) [
  | inl same ↦ rw same u
  | inr other ↦ rw other (any_of-add_key k key ks other u.0, add_key-Unique key ks u.1)
]

abbrev counted : ℕ → Text → ℕ → ℕ → Counters → Counters
counted now key expiry amount c = record c {
  storage = set_value key (λ n. n + amount) amount c.storage;
  expirations = set_value key (λ e. e) (now + expiry) c.expirations;
}

pub counted-IsPaired :
    (now : ℕ) (key : Text) (expiry amount : ℕ) (c : Counters)
    → IsPaired c
    → IsPaired (counted now key expiry amount c)
counted-IsPaired now key expiry amount c h = record {
  same_keys =
      keys-set_value key _ amount c.storage
      ∙ ap (add_key key) h.same_keys
      ∙ sym (keys-set_value key _ (now + expiry) c.expirations);
  unique =
      subst Unique (sym (keys-set_value key (λ e. e) (now + expiry) c.expirations))
        (add_key-Unique key (keys c.expirations) h.unique);
}

abbrev count_of : Text → Dict ℕ → ℕ
count_of key [] = 0
count_of key (item ∷ d) = if text_eq item.0 key then item.1 else count_of key d

abbrev pub counting : MemoryStorage
counting = record {
  incr = λ now key expiry amount c.
      (counted now key expiry amount c, count_of key (counted now key expiry amount c).storage);
  clear = λ key c. record c {
    storage = drop_key key c.storage;
    expirations = drop_key key c.expirations;
  };
  incr-IsPaired = counted-IsPaired;
  clear-storage = λ key c. refl;
  clear-expirations = λ key c. refl;
}
