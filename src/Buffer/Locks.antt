-- ===== src/Buffer/Locks.antt =====
-- The lock of a buffer, LorieBuffer_lock and LorieBuffer_unlock.
use termux_x11_extra.Base.{◌≡◌, refl, false, none}
use termux_x11_extra.Base.Int.{ℤ}
use termux_x11_extra.Buffer.{
  BufferType, regular, file_descriptor, hardware, unknown, LorieBuffer, eexist, enoent, Locking,
  lock, lock_content, unlock,
}

-- What `lock_content` leaves alone.
lock_content-rest :
    (l : Locking) (t : BufferType) (b : LorieBuffer)
    → record (lock_content l t b).0 { locked = false; locked_data = none }
      ≡ record b { locked = false; locked_data = none }
lock_content-rest l regular b = refl
lock_content-rest l file_descriptor b = refl
lock_content-rest l hardware b = refl
lock_content-rest l unknown b = refl

-- A buffer that is not locked: locking it twice gives the pointer of the first lock again, with the
-- error EEXIST and no change; unlocking the locked buffer gives the buffer back with no pointer; and
-- unlocking it unlocked changes nothing and is the error ENOENT.
pub lock-unlock :
    (l l' : Locking) (ret : ℤ) (b : LorieBuffer)
    → b.locked ≡ false
    → let (b', result, out) = lock l b in
      (lock l' b' ≡ (b', eexist, out))
      × ((unlock ret b').0 ≡ record b { locked = false; locked_data = none })
      × (unlock ret b ≡ (b, enoent))
unfolding lock unlock
lock-unlock l l' ret b free =
    rw free (refl, lock_content-rest l b.desc.type (record b { locked = false }), refl)
