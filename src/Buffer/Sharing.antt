-- ===== src/Buffer/Sharing.antt =====
-- A buffer that several holders acquire, lock, unlock and release.
use termux_x11_extra.Base.{
  ℕ, zero, suc, ◌+◌, ◌%◌, ◌<◌, ◌≡◌, ◌∙◌, ==-false, ap, refl, Bool, true, false, List, [], ◌∷◌, ◌++◌,
  Option, none, some, arith, length,
}
use termux_x11_extra.Base.Int.{ℤ}
use termux_x11_extra.Buffer.{
  BufferType, regular, file_descriptor, hardware, unknown, Desc, memory, hardware_buffer,
  LorieBuffer, Resource, Log, Locking, free, acquire, release, lock, lock_content, unlock,
}
use termux_x11_extra.Buffer.Balance.{
  one, same, acquired, released, at_address, content, owned, free-count,
}

-- A call on a buffer, with what the system answers.
pub data Use : Type 0 where
  acquiring : Use
  releasing : Bool → Bool → Use
  locking : Locking → Use
  unlocking : ℤ → Use

unfoldable pub use_step : Use → LorieBuffer → Option LorieBuffer × Log
unfolding acquire release lock unlock
use_step acquiring b = (some (acquire b), [])
use_step (releasing context display) b = release context display b
use_step (locking l) b = (some (lock l b).0, [])
use_step (unlocking ret) b = (some (unlock ret b).0, [])

-- What comes after a call; nothing does once the buffer is freed.
abbrev pub proceed :
    (LorieBuffer → Option LorieBuffer × Log) → Option LorieBuffer × Log → Option LorieBuffer × Log
proceed rest (none, log) = (none, log)
proceed rest (some b, log) = let (left, logs) = rest b in (left, log ++ logs)

-- The calls in order.
unfoldable pub use_all : List Use → LorieBuffer → Option LorieBuffer × Log
unfolding use_step
use_all [] b = (some b, [])
use_all (u ∷ us) b = proceed (use_all us) (use_step u b)

-- The number of references that the calls leave: 0 for good once it is 0.
abbrev pub references : List Use → ℕ → ℕ
references us zero = zero
references [] (suc n) = suc n
references (acquiring ∷ us) (suc n) = references us (suc (suc n))
references (releasing context display ∷ us) (suc n) = references us n
references (locking l ∷ us) (suc n) = references us (suc n)
references (unlocking ret ∷ us) (suc n) = references us (suc n)

-- What the calls may leave where `n` references are left.
abbrev pub IsOutcome : Resource → LorieBuffer → ℕ → Option LorieBuffer × Log → Type 0
IsOutcome r b n (none, log) = (n ≡ 0) × (acquired r log ≡ 0) × (released r log ≡ owned r b)
IsOutcome r b n (some b', log) = (b'.refcount ≡ n) × (0 < n) × (log ≡ []) × (owned r b' ≡ owned r b)

IsOutcome-owned :
    (r : Resource) (b b' : LorieBuffer) (n : ℕ) (o : Option LorieBuffer × Log)
    → owned r b' ≡ owned r b
    → IsOutcome r b' n o
    → IsOutcome r b n o
IsOutcome-owned r b b' n (none, log) e h = ground (arith, e, h)
IsOutcome-owned r b b' n (some c, log) e h = ground (arith, e, h)

content-keeps :
    (r : Resource) (t : BufferType) (b b' : LorieBuffer)
    → b'.desc ≡ b.desc
    → b'.fd ≡ b.fd
    → content r t b' ≡ content r t b
content-keeps r regular b b' same_desc same_fd =
    ap (λ (d : Desc). at_address r memory d.pixels) same_desc
content-keeps r file_descriptor b b' same_desc same_fd = rw (same_desc, same_fd) refl
content-keeps r hardware b b' same_desc same_fd =
    ap (λ (d : Desc). at_address r hardware_buffer d.buffer) same_desc
content-keeps r unknown b b' same_desc same_fd = refl

owned-keeps :
    (r : Resource) (b b' : LorieBuffer)
    → b'.desc ≡ b.desc
    → b'.fd ≡ b.fd
    → b'.address ≡ b.address
    → owned r b' ≡ owned r b
owned-keeps r b b' same_desc same_fd same_address =
    ap (λ (d : Desc). content r d.type b' + one (same r (memory b'.address))) same_desc
    ∙ ap (λ n. n + one (same r (memory b'.address)))
        (content-keeps r b.desc.type b b' same_desc same_fd)
    ∙ ap (λ a. content r b.desc.type b + one (same r (memory a))) same_address

lock_content-keeps :
    (r : Resource) (l : Locking) (t : BufferType) (b : LorieBuffer)
    → let b' = (lock_content l t b).0 in (b'.refcount ≡ b.refcount) × (owned r b' ≡ owned r b)
lock_content-keeps r l regular b =
    (refl, owned-keeps r b (lock_content l regular b).0 refl refl refl)
lock_content-keeps r l file_descriptor b =
    (refl, owned-keeps r b (lock_content l file_descriptor b).0 refl refl refl)
lock_content-keeps r l hardware b =
    (refl, owned-keeps r b (lock_content l hardware b).0 refl refl refl)
lock_content-keeps r l unknown b =
    (refl, owned-keeps r b (lock_content l unknown b).0 refl refl refl)

pub lock-keeps :
    (r : Resource) (l : Locking) (b : LorieBuffer)
    → let b' = (lock l b).0 in (b'.refcount ≡ b.refcount) × (owned r b' ≡ owned r b)
unfolding lock
lock-keeps r l b =
    let b' = (lock_content l b.desc.type b).0 in
    ground (
      arith,
      lock_content-keeps r l b.desc.type b,
      owned-keeps r b' (record b' { locked = true }) refl refl refl,
    )

unlock-keeps :
    (r : Resource) (ret : ℤ) (b : LorieBuffer)
    → let b' = (unlock ret b).0 in (b'.refcount ≡ b.refcount) × (owned r b' ≡ owned r b)
unfolding unlock
unlock-keeps r ret b =
    ground (arith, owned-keeps r b (record b { locked_data = none; locked = false }) refl refl refl)

acquire-refcount :
    (b : LorieBuffer) (n : ℕ) → b.refcount ≡ n → suc n < 65536 → (acquire b).refcount ≡ suc n
unfolding acquire
acquire-refcount b n is fits = omega arith

release-last :
    (context display : Bool) (b : LorieBuffer)
    → b.refcount ≡ 1
    → release context display b ≡ (none, free context display b)
unfolding release
release-last context display b is = rw is refl

release-other :
    (context display : Bool) (b : LorieBuffer) (n : ℕ)
    → b.refcount ≡ suc (suc n)
    → suc (suc n) < 65536
    → release context display b ≡ (some (record b { refcount = suc n }), [])
unfolding release
release-other context display b n is fits =
    let less : (suc (suc n) + 65535) % 65536 ≡ suc n = omega arith in
    rw (is, ==-false (suc (suc n)) 1 (omega arith), less) refl

-- A buffer whose count is its number of references, and calls that cannot bring the count to 65,536:
-- if the calls leave a reference, the buffer lives with that count and holds what it held, and nothing
-- was given back; if they release the last one, the buffer is freed there, and each thing it held is
-- given back exactly once.
pub use_all-IsOutcome :
    (r : Resource) (us : List Use) (b : LorieBuffer) (n : ℕ)
    → b.refcount ≡ suc n
    → suc n + length us < 65536
    → IsOutcome r b (references us (suc n)) (use_all us b)
unfolding use_all use_step
use_all-IsOutcome r [] b n is fits = (is, omega arith, refl, refl)
use_all-IsOutcome r (acquiring ∷ us) b n is fits =
    IsOutcome-owned r b (acquire b) (references us (suc (suc n))) (use_all us (acquire b))
      (owned-keeps r b (acquire b) refl refl refl)
      (use_all-IsOutcome r us (acquire b) (suc n) (acquire-refcount b (suc n) is (omega arith))
        (omega arith))
use_all-IsOutcome r (releasing context display ∷ us) b zero is fits =
    rw (use_all, use_step, release-last context display b is)
      (refl, (free-count r context display b).0, (free-count r context display b).1)
use_all-IsOutcome r (releasing context display ∷ us) b (suc n) is fits =
    let b' = record b { refcount = suc n } in
    rw (use_all, use_step, release-other context display b n is (omega arith))
      (IsOutcome-owned r b b' (references us (suc n)) (use_all us b')
        (owned-keeps r b b' refl refl refl) (use_all-IsOutcome r us b' n refl (omega arith)))
use_all-IsOutcome r (locking l ∷ us) b n is fits =
    let b' = (lock l b).0 in
    let (count_kept, owned_kept) = lock-keeps r l b in
    IsOutcome-owned r b b' (references us (suc n)) (use_all us b') owned_kept
      (use_all-IsOutcome r us b' n (count_kept ∙ is) (omega arith))
use_all-IsOutcome r (unlocking ret ∷ us) b n is fits =
    let b' = (unlock ret b).0 in
    let (count_kept, owned_kept) = unlock-keeps r ret b in
    IsOutcome-owned r b b' (references us (suc n)) (use_all us b') owned_kept
      (use_all-IsOutcome r us b' n (count_kept ∙ is) (omega arith))
