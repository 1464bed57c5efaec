-- ===== src/Buffer/Receive.antt =====
-- LorieBuffer_sendHandleToUnixSocket and LorieBuffer_recvHandleFromUnixSocket of
-- app/src/main/cpp/lorie/buffer.c: a buffer crosses to the other process.
-- The struct is read whole or not at all; what the kernel makes of a descriptor on the way is an
-- argument.
use termux_x11_extra.Base.{
  ℕ, ◌+◌, ◌≡◌, refl, Bool, true, false, List, [], ◌∷◌, ◌++◌, Option, none, some, arith, ◌==◌,
  if◌then◌else◌, inl, inr, Option-cases,
}
use termux_x11_extra.Base.Int.{ℤ, pos, negsuc, is_neg}
use termux_x11_extra.Buffer.{
  BufferType, regular, file_descriptor, hardware, unknown, other_format, LorieBuffer, Resource,
  memory, mapping, descriptor, hardware_buffer, got, Log, got_fd, gave_fd, gave_at,
}
use termux_x11_extra.Buffer.Convert.{is_regular}
use termux_x11_extra.Buffer.Create.{image_size}
use termux_x11_extra.Buffer.Balance.{
  acquired, released, one, same, got_fd-count, owned_if_made, at_address,
}

-- What stands in the socket.
pub data Packet : Type 0 where
  body : LorieBuffer → Packet
  passed_fd : ℤ → Packet
  passed_hardware : Option ℕ → Packet

abbrev pub handle : BufferType → LorieBuffer → List Packet
handle file_descriptor b = passed_fd b.fd ∷ []
handle hardware b = passed_hardware b.desc.buffer ∷ []
handle regular b = []
handle unknown b = []

-- LorieBuffer_sendHandleToUnixSocket
unfoldable pub send : ℤ → LorieBuffer → List Packet
send socket b = if is_neg socket then [] else body b ∷ handle b.desc.type b

-- The receiving process: the descriptor that ancil_recv_fd makes of a sent one, -1 for a failure;
-- mmap of a descriptor and a size, at the offset 0; the hardware buffer of a sent one, none for a
-- failure; the address of calloc.
pub record Receiver : Type 0 where
  pub receive_fd : ℤ → ℤ
  pub mmap : ℤ → ℕ → Option ℕ
  pub receive_hardware : Option ℕ → Option ℕ
  pub block : Option ℕ

-- `*outBuffer` is left as it was, or set.
pub data Output : Type 0 where
  kept : Output
  set : Option LorieBuffer → Output

-- The local `buffer` before the read.
abbrev pub reset : LorieBuffer
reset = record {
  address = 0;
  refcount = 1;
  desc = record {
    width = pos 0;
    height = pos 0;
    stride = pos 0;
    format = other_format 0;
    type = unknown;
    id = 0;
    buffer = none;
    pixels = none;
  };
  locked = false;
  locked_data = none;
  fd = negsuc 0;
  size = 0;
  offset = 0;
  texture = 0;
  image = none;
}

-- read(socketFd, &buffer, sizeof(buffer)): over the whole struct. The last part is what is left.
abbrev pub read_body : List Packet → LorieBuffer × List Packet
read_body (body b ∷ packets) = (b, packets)
read_body packets = (reset, packets)

abbrev pub read_fd : Receiver → List Packet → ℤ
read_fd v (passed_fd fd ∷ packets) = v.receive_fd fd
read_fd v packets = negsuc 0

-- A call that fails leaves the pointer as it was.
abbrev pub received_hardware : Receiver → List Packet → Option ℕ
received_hardware v (passed_hardware h ∷ packets) = v.receive_hardware h
received_hardware v packets = none

abbrev pub or_old : Option ℕ → Option ℕ → Option ℕ
or_old (some a) old = some a
or_old none old = old

abbrev pub got_at : (ℕ → Resource) → Option ℕ → Log
got_at c none = []
got_at c (some a) = got (c a) ∷ []

-- From the calloc on; `wanted` says whether outBuffer is not NULL.
unfoldable pub deliver : Receiver → Bool → LorieBuffer → Output × Log
deliver v wanted b = elim (if wanted then v.block else none) [
  | none ↦ (kept, gave_fd b.fd ++ gave_at hardware_buffer b.desc.buffer)
  | some a ↦ (set (some (record b { address = a })), got (memory a) ∷ [])
]

abbrev pub null_if : Bool → Output
null_if wanted = if wanted then set none else kept

abbrev pub is_minus_one : ℤ → Bool
is_minus_one (pos n) = false
is_minus_one (negsuc n) = n == 0

-- The branch of file descriptors, for what ancil_recv_fd returned.
abbrev pub map_fd : Receiver → Bool → LorieBuffer → ℤ → Output × Log
map_fd v wanted b fd =
    if is_minus_one fd
    then (null_if wanted, [])
    else elim (v.mmap fd (image_size b.desc.stride b.desc.height)) [
      | none ↦ (null_if wanted, got_fd fd ++ gave_fd fd)
      | some p ↦
          let b' = record b { fd = fd; desc = record b.desc { pixels = some p } } in
          let (output, log) = deliver v wanted b' in (output, got_fd fd ++ (got (mapping p) ∷ log))
    ]

abbrev pub receive_content : Receiver → Bool → BufferType → LorieBuffer → List Packet → Output × Log
receive_content v wanted file_descriptor b packets = map_fd v wanted b (read_fd v packets)
receive_content v wanted hardware b packets =
    let received = received_hardware v packets in
    let h = or_old received b.desc.buffer in
    let (output, log) = deliver v wanted (record b { desc = record b.desc { buffer = h } }) in
    (output, got_at hardware_buffer received ++ log)
receive_content v wanted regular b packets = deliver v wanted b
receive_content v wanted unknown b packets = deliver v wanted b

-- LorieBuffer_recvHandleFromUnixSocket
unfoldable pub receive : Receiver → ℤ → Bool → List Packet → Output × Log
unfolding deliver
receive v socket wanted packets =
    if is_neg socket
    then (kept, [])
    else let (b, rest) = read_body packets in
      let b' = record b { image = none } in receive_content v wanted b'.desc.type b' rest

-- A buffer on a descriptor that is sent over one socket and received whole: it is the sender's
-- buffer with its own address, descriptor and mapping and without an image. The count of
-- references and the lock are the sender's at the time of sending.
pub receive-send :
    (v : Receiver) (from to : ℕ) (b : LorieBuffer) (fd a p : ℕ)
    → b.desc.type ≡ file_descriptor
    → v.receive_fd b.fd ≡ pos fd
    → v.mmap (pos fd) (image_size b.desc.stride b.desc.height) ≡ some p
    → v.block ≡ some a
    → receive v (pos to) true (send (pos from) b) ≡ (
      set (
          some (record b {
            address = a;
            fd = pos fd;
            image = none;
            desc = record b.desc { pixels = some p };
          })),
      got (descriptor fd) ∷ got (mapping p) ∷ got (memory a) ∷ [],
    )
unfolding receive send deliver
receive-send v from to b fd a p is received mapped made =
    rw (is, received, mapped, made) (rw received refl)

abbrev pub owned_output : Resource → Output → ℕ
owned_output r kept = 0
owned_output r (set o) = owned_if_made r o

-- The pointer that a call that fails leaves, of the two that it starts with.
abbrev pub unreceived : Option ℕ → Option ℕ → Option ℕ
unreceived (some a) old = none
unreceived none old = old

-- The sender's pointer to a hardware buffer that is not received.
abbrev pub stale : Receiver → BufferType → LorieBuffer → List Packet → Option ℕ
stale v hardware b packets = unreceived (received_hardware v packets) b.desc.buffer
stale v file_descriptor b packets = none
stale v regular b packets = none
stale v unknown b packets = none

abbrev pub stale_of : Receiver → ℤ → List Packet → Option ℕ
stale_of v socket packets =
    let (b, rest) = read_body packets in if is_neg socket then none else stale v b.desc.type b rest

got_at-count :
    (r : Resource) (c : ℕ → Resource) (o : Option ℕ)
    → (acquired r (got_at c o) ≡ at_address r c o) × (released r (got_at c o) ≡ 0)
got_at-count r c none = ground arith
got_at-count r c (some a) = ground arith

map_fd-count :
    (r : Resource) (v : Receiver) (b : LorieBuffer) (fd : ℤ) (a : ℕ)
    → v.block ≡ some a
    → b.desc.type ≡ file_descriptor
    → let (output, log) = map_fd v true b fd in
      acquired r log ≡ released r log + owned_output r output
unfolding deliver
map_fd-count r v b (negsuc n) a made is =
    elim (Option-cases (v.mmap (negsuc n) (image_size b.desc.stride b.desc.height))) [
      | inl failed ↦ ground arith
      | inr (p, mapped) ↦ ground arith
    ]
map_fd-count r v b (pos n) a made is =
    elim (Option-cases (v.mmap (pos n) (image_size b.desc.stride b.desc.height))) [
      | inl failed ↦ ground arith
      | inr (p, mapped) ↦ ground arith
    ]

hardware-count :
    (r : Resource) (v : Receiver) (b : LorieBuffer) (a : ℕ)
    → v.block ≡ some a
    → b.desc.type ≡ hardware
    → (received : Option ℕ)
    → let h = or_old received b.desc.buffer in
      let (output, log) = deliver v true (record b { desc = record b.desc { buffer = h } }) in
      acquired r (got_at hardware_buffer received ++ log)
        + at_address r hardware_buffer (unreceived received b.desc.buffer)
      ≡ released r (got_at hardware_buffer received ++ log) + owned_output r output
unfolding deliver
hardware-count r v b a made is none = ground arith
hardware-count r v b a made is (some h) = ground arith

receive_content-count :
    (r : Resource) (v : Receiver) (t : BufferType) (b : LorieBuffer) (packets : List Packet) (a : ℕ)
    → v.block ≡ some a
    → b.desc.type ≡ t
    → is_regular t ≡ false
    → let (output, log) = receive_content v true t b packets in
      acquired r log + at_address r hardware_buffer (stale v t b packets)
      ≡ released r log + owned_output r output
unfolding deliver
receive_content-count r v regular b packets a made is other = cc
receive_content-count r v unknown b packets a made is other = ground arith
receive_content-count r v file_descriptor b packets a made is other =
    omega (arith, map_fd-count r v b (read_fd v packets) a made is)
receive_content-count r v hardware b packets a made is other =
    hardware-count r v b a made is (received_hardware v packets)

-- What is received from any packets for a caller that wants the buffer, where calloc does not fail and
-- the struct is not of the regular type: all that is acquired is held by the buffer or given back. The
-- buffer holds nothing else but the sender's pointer to a hardware buffer that is not received.
pub receive-count :
    (r : Resource) (v : Receiver) (socket : ℤ) (packets : List Packet) (a : ℕ)
    → v.block ≡ some a
    → is_regular (read_body packets).0.desc.type ≡ false
    → let (output, log) = receive v socket true packets in
      acquired r log + at_address r hardware_buffer (stale_of v socket packets)
      ≡ released r log + owned_output r output
unfolding receive deliver
receive-count r v socket packets a made other =
    let b = record (read_body packets).0 { image = none } in
    ground (arith, receive_content-count r v b.desc.type b (read_body packets).1 a made refl other)

-- A descriptor that is received and mapped for a caller that does not want the buffer, or for which
-- calloc fails: the mapping is kept by no one.
pub receive-leak :
    (r : Resource) (v : Receiver) (to : ℕ) (wanted : Bool) (b : LorieBuffer) (sent : ℤ) (fd p : ℕ)
    → (if wanted then v.block else none) ≡ none
    → b.desc.type ≡ file_descriptor
    → b.desc.buffer ≡ none
    → v.receive_fd sent ≡ pos fd
    → v.mmap (pos fd) (image_size b.desc.stride b.desc.height) ≡ some p
    → let (output, log) = receive v (pos to) wanted (body b ∷ passed_fd sent ∷ []) in
      (output ≡ kept) × (acquired r log ≡ released r log + one (same r (mapping p)))
unfolding receive deliver
receive-leak r v to wanted b sent fd p lost is empty received mapped =
    ground (arith, got_fd-count r (pos fd))
