-- ===== src/Receive/Source.antt =====
-- skt/streams/socket_stream.cpp: SocketStream as a source of bytes. What the socket will answer is a
-- list, one entry for each recv of the system: bytes, or none for an error. Behind its last entry the
-- peer has closed the connection.
use learn_web.Common.{
  ℕ, zero, suc, Bool, false, not, Option, none, some, List, [], ◌∷◌, ◌++◌, if◌then◌else◌, leb,
  length, ◌==◌,
}
use learn_web.Common.Integers.{ℤ, pos, negsuc}
use learn_web.Http.Texts.{Text}
use learn_web.Receive.Parsers.{take, drop}

pub record SocketStream : Type 0 where
  pub connected : Bool
  pub incoming : List (Option Text)

-- recv of `n` bytes: the answer, the bytes, and what is still to come.
unfoldable pub recv : ℕ → List (Option Text) → ℤ × Text × List (Option Text)
recv n [] = (pos 0, [], [])
recv n (none ∷ later) = (negsuc 0, [], later)
recv n (some bytes ∷ later) =
    if leb (length bytes) n
    then (pos (length bytes), bytes, later)
    else (pos n, take n bytes, some (drop n bytes) ∷ later)

-- SocketStream::read
unfoldable pub stream_read : ℕ → SocketStream → ℤ × Text × SocketStream
stream_read n s =
    if not s.connected
    then (negsuc 0, [], s)
    else (let (r, bytes, later) = recv n s.incoming in (r, bytes, record s { incoming = later }))

-- SocketStream::close
unfoldable pub close : SocketStream → SocketStream
close s = record s { connected = false }

-- The bytes that are still to come, up to an error.
unfoldable pub flat : List (Option Text) → Text
flat [] = []
flat (none ∷ later) = []
flat (some bytes ∷ later) = bytes ++ flat later

-- `memcpy(at, bytes, size)`, with the memory as a function from offsets.
unfoldable pub store : ℕ → Text → (ℕ → ℕ) → ℕ → ℕ
store at [] memory = memory
store at (b ∷ bytes) memory = store (suc at) bytes (λ i. if i == at then b else memory i)

-- The bytes from an offset on.
unfoldable pub load : ℕ → ℕ → (ℕ → ℕ) → Text
load at zero memory = []
load at (suc n) memory = memory at ∷ load (suc at) n memory
