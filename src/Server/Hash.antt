-- ===== src/Server/Hash.antt =====
-- multi_thread_server/src/utils.c and the key type of multi_thread_server/include/hashmap.h.
-- A pointer is the bytes of the buffer it points to, `none` for NULL. A read behind the end of a
-- buffer, which C leaves undefined, gives the byte 0; no caller in the repository makes one.
use linux_system.Prelude.{
  ℕ, zero, suc, ◌+◌, ◌*◌, ◌/◌, ◌%◌, ◌^◌, ◌≤◌, ◌<◌, bit_xor, ◌≡◌, refl, Bool, true, false, ◌&&◌,
  Option, none, some, List, [], arith, ◌==◌, get_or,
}

abbrev pub Buffer : Type 0
Buffer = Option (List ℕ)

abbrev pub is_null : Buffer → Bool
is_null none = true
is_null (some b) = false

abbrev pub bytes : Buffer → List ℕ
bytes none = []
bytes (some b) = b

-- `map_key_t`
pub record MapKey : Type 0 where
  pub key_base : Buffer
  pub key_len : ℕ

-- `memcmp(p, q, n) == 0`
unfoldable pub memcmp_zero : List ℕ → List ℕ → ℕ → Bool
memcmp_zero p q zero = true
memcmp_zero p q (suc n) = memcmp_zero p q n && (get_or p n 0 == get_or q n 0)

-- The comparison of two keys: first the lengths, then the bytes.
unfoldable pub same_key : MapKey → MapKey → Bool
same_key a b =
    (a.key_len == b.key_len) && memcmp_zero (bytes a.key_base) (bytes b.key_base) a.key_len

-- Unsigned 32-bit operations.
abbrev pub u32 : ℕ → ℕ
u32 x = x % 2 ^ 32

-- One round of the loop, and the three statements behind it.
mix : ℕ → ℕ → ℕ
mix hash byte =
    let h₁ = u32 (hash + byte) in let h₂ = u32 (h₁ + u32 (h₁ * 2 ^ 10)) in bit_xor h₂ (h₂ / 2 ^ 6)

finish : ℕ → ℕ
finish hash =
    let h₁ = u32 (hash + u32 (hash * 2 ^ 3)) in
    let h₂ = bit_xor h₁ (h₁ / 2 ^ 11) in u32 (h₂ + u32 (h₂ * 2 ^ 15))

-- `while (i != length)`, with the number of rounds left.
hash_loop : ℕ → List ℕ → ℕ → ℕ → ℕ
hash_loop zero key i hash = hash
hash_loop (suc n) key i hash = hash_loop n key (i + 1) (mix hash (get_or key i 0))

unfoldable pub jenkins_one_at_a_time_hash : MapKey → ℕ
unfolding mix finish hash_loop
jenkins_one_at_a_time_hash k = finish (hash_loop k.key_len (bytes k.key_base) 0 0)

-- Byte comparison is an equivalence.
memcmp_zero_refl : (p : List ℕ) (n : ℕ) → memcmp_zero p p n ≡ true
unfolding memcmp_zero
memcmp_zero_refl p zero = refl
memcmp_zero_refl p (suc n) = ground (arith, memcmp_zero_refl p n)

memcmp_zero_congr :
    (p q r : List ℕ) (n : ℕ) → memcmp_zero p q n ≡ true → memcmp_zero p r n ≡ memcmp_zero q r n
unfolding memcmp_zero
memcmp_zero_congr p q r zero h = refl
memcmp_zero_congr p q r (suc n) h = ground (arith, memcmp_zero_congr p q r n)

pub same_key_refl : (k : MapKey) → same_key k k ≡ true
unfolding same_key
same_key_refl k = ground (arith, memcmp_zero_refl (bytes k.key_base) k.key_len)

pub same_key_congr : (a b c : MapKey) → same_key a b ≡ true → same_key a c ≡ same_key b c
unfolding same_key
same_key_congr a b c h =
    ground
      (arith, memcmp_zero_congr (bytes a.key_base) (bytes b.key_base) (bytes c.key_base) a.key_len)

memcmp_zero-get_or :
    (p q : List ℕ) (n i : ℕ) → memcmp_zero p q n ≡ true → i < n → get_or p i 0 ≡ get_or q i 0
unfolding memcmp_zero
memcmp_zero-get_or p q zero i h lt = absurd (omega arith)
memcmp_zero-get_or p q (suc n) i h lt = ground (arith, memcmp_zero-get_or p q n i)

hash_loop_congr :
    (p q : List ℕ) (m n i hash : ℕ)
    → memcmp_zero p q m ≡ true
    → i + n ≤ m
    → hash_loop n p i hash ≡ hash_loop n q i hash
unfolding hash_loop
hash_loop_congr p q m zero i hash h le = refl
hash_loop_congr p q m (suc n) i hash h le =
    rw (memcmp_zero-get_or p q m i h (omega arith))
      (hash_loop_congr p q m n (i + 1) _ h (omega arith))

-- Keys that compare equal have one hash, and it fits `uint32_t`.
pub jenkins_congr :
    (a b : MapKey)
    → same_key a b ≡ true
    → (jenkins_one_at_a_time_hash a ≡ jenkins_one_at_a_time_hash b)
      × (jenkins_one_at_a_time_hash a < 2 ^ 32)
unfolding jenkins_one_at_a_time_hash same_key
jenkins_congr a b h =
    let p = bytes a.key_base in
    let q = bytes b.key_base in
    (ground (arith, hash_loop_congr p q a.key_len a.key_len 0 0), omega arith)

-- Two keys that compare equal to a third compare equal.
pub same_key_join :
    (k q n : MapKey) → same_key k n ≡ true → same_key q n ≡ true → same_key k q ≡ true
same_key_join k q n hk hq =
    ground (arith, same_key_congr q n q, same_key_congr k n q, same_key_refl q)

pub same_key_symm : (k q : MapKey) → same_key k q ≡ true → same_key q k ≡ true
same_key_symm k q h = ground (arith, same_key_congr k q k, same_key_refl k)
