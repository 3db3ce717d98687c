-- ===== src/Pvp/Control.antt =====
-- The framing of the battle server's connection to the match server: `sendWithoutSize`,
-- `receive` and `receiveHandler`. The machine is little-endian and `int` has 32 bits.
use lalune_server.Base.{
  ℕ, zero, suc, ◌+◌, ◌-◌, ◌*◌, ◌/◌, ◌%◌, ◌<◌, ◌≡◌, refl, sym, ap, ◌∙◌, Bool, true, false, ◌||◌,
  List, [], ◌∷◌, ◌++◌, Option, none, some, arith, if◌then◌else◌, ltb, leb, Bytes, length, All,
}

-- The four bytes of an `int` that is at least 0.
unfoldable pub size_bytes_of : ℕ → Bytes
size_bytes_of n = n % 256 ∷ n / 256 % 256 ∷ n / 65536 % 256 ∷ n / 16777216 % 256 ∷ []

unfoldable pub value_of : Bytes → ℕ
value_of [] = 0
value_of (b ∷ bs) = b + value_of bs * 256

-- What `sendWithoutSize` puts on the wire: the size counts its own four bytes.
unfoldable pub framed : Bytes → Bytes
framed message = size_bytes_of (length message + 4) ++ message

-- The part of `PvpServer` that reads the control connection.
pub record Reader : Type 0 where
  pub is_reading_size : Bool
  pub size_bytes : Bytes
  pub data_bytes : Bytes

abbrev pub new_reader : Reader
new_reader = record { is_reading_size = true; size_bytes = 0 ∷ 0 ∷ 0 ∷ 0 ∷ []; data_bytes = [] }

-- The bytes that came in stand at the front of the buffer; `async_receive` may bring fewer than
-- the buffer holds.
unfoldable pub fill : Bytes → Bytes → Bytes
fill [] chunk = []
fill (b ∷ bs) [] = b ∷ bs
fill (b ∷ bs) (c ∷ cs) = c ∷ fill bs cs

-- `vector::resize`.
unfoldable pub resize : ℕ → Bytes → Bytes
resize zero bs = []
resize (suc n) [] = 0 ∷ resize n []
resize (suc n) (b ∷ bs) = b ∷ resize n bs

-- `receiveHandler` without an error: the reader, and the data for `parseControlMessage` if there
-- is any. `none`: a negative size, where `resize` throws.
unfoldable pub receive_handler : Reader → Bytes → Option (Reader × Option Bytes)
unfolding fill resize value_of
receive_handler r chunk =
    if r.is_reading_size
    then (let bytes = fill r.size_bytes chunk in
        let value = value_of bytes in
        if ltb value 4 || leb 2147483648 value
        then none
        else some (
          record r {
            is_reading_size = false;
            size_bytes = bytes;
            data_bytes = resize (value - 4) r.data_bytes;
          },
          none,
        ))
    else some (
      record r { is_reading_size = true; data_bytes = fill r.data_bytes chunk },
      some (fill r.data_bytes chunk),
    )

unfoldable pub receive_chunks : Reader → List Bytes → Option (Reader × List Bytes)
receive_chunks r [] = some (r, [])
receive_chunks r (c ∷ cs) = elim (receive_handler r c) [
  | none ↦ none
  | some (r', o) ↦ elim (receive_chunks r' cs) [
    | none ↦ none
    | some (r₂, got) ↦ some (r₂, elim o [ none ↦ got | some m ↦ m ∷ got ])
  ]
]

-- The chunks of a list of messages, where each receive fills its buffer.
abbrev pub whole_chunks : List Bytes → List Bytes
whole_chunks [] = []
whole_chunks (m ∷ ms) = size_bytes_of (length m + 4) ∷ m ∷ whole_chunks ms

value_of-size : (n : ℕ) → n < 2147483648 → value_of (size_bytes_of n) ≡ n
unfolding value_of size_bytes_of
value_of-size n h = omega arith

size_of-length : (n : ℕ) → 4 ≡ length (size_bytes_of n)
unfolding size_bytes_of
size_of-length n = refl

fill-whole : (bs cs : Bytes) → length bs ≡ length cs → fill bs cs ≡ cs
unfolding fill
fill-whole [] [] h = refl
fill-whole [] (c ∷ cs) h = absurd (omega arith)
fill-whole (b ∷ bs) [] h = absurd (omega arith)
fill-whole (b ∷ bs) (c ∷ cs) h = ap (λ (l : Bytes). c ∷ l) (fill-whole bs cs (omega arith))

length-resize : (n : ℕ) (bs : Bytes) → length (resize n bs) ≡ n
unfolding resize
length-resize zero bs = refl
length-resize (suc n) [] = omega (arith, length-resize n [])
length-resize (suc n) (b ∷ bs) = omega (arith, length-resize n bs)

read_size :
    (r : Reader) (n : ℕ)
    → r.is_reading_size ≡ true
    → length r.size_bytes ≡ 4
    → n + 4 < 2147483648
    → receive_handler r (size_bytes_of (n + 4))
      ≡ some (
        record r {
          is_reading_size = false;
          size_bytes = size_bytes_of (n + 4);
          data_bytes = resize n r.data_bytes;
        },
        none,
      )
unfolding receive_handler
read_size r n start four small = rw (start, whole, value, low, high, less) refl
  where
    whole : fill r.size_bytes (size_bytes_of (n + 4)) ≡ size_bytes_of (n + 4)
    whole = fill-whole r.size_bytes (size_bytes_of (n + 4)) (four ∙ size_of-length (n + 4))

    value : value_of (size_bytes_of (n + 4)) ≡ n + 4
    value = value_of-size (n + 4) small

    low : ltb (n + 4) 4 ≡ false
    low = ground arith

    high : leb 2147483648 (n + 4) ≡ false
    high = ground arith

    less : n + 4 - 4 ≡ n
    less = omega arith

read_data :
    (r : Reader) (m : Bytes)
    → r.is_reading_size ≡ false
    → length r.data_bytes ≡ length m
    → receive_handler r m ≡ some (record r { is_reading_size = true; data_bytes = m }, some m)
unfolding receive_handler
read_data r m start same = rw (start, fill-whole r.data_bytes m same) refl

-- If every receive fills its buffer and no message reaches 2 GiB, the messages that are sent come
-- out, in their order, and the reader waits for a size again.
pub receive_chunks-whole :
    (ms : List Bytes) (r : Reader)
    → r.is_reading_size ≡ true
    → length r.size_bytes ≡ 4
    → All (λ m. length m + 4 < 2147483648) ms
    → (r' : Reader) × (receive_chunks r (whole_chunks ms) ≡ some (r', ms))
      × (r'.is_reading_size ≡ true)
unfolding receive_chunks
receive_chunks-whole [] r start four small = (r, refl, start)
receive_chunks-whole (m ∷ ms) r start four small =
    let r₁ : Reader = record r {
      is_reading_size = false;
      size_bytes = size_bytes_of (length m + 4);
      data_bytes = resize (length m) r.data_bytes;
    } in
    let r₂ : Reader = record r₁ { is_reading_size = true; data_bytes = m } in
    let (r', got, ready) =
      receive_chunks-whole ms r₂ refl (sym (size_of-length (length m + 4))) small.1 in
    (
      r',
      rw
          (
            receive_chunks,
            read_size r (length m) start four small.0,
            receive_chunks,
            read_data r₁ m refl (length-resize (length m) r.data_bytes),
            got,
          )
          refl,
      ready,
    )
