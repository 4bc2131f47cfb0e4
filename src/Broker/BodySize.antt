-- ===== src/Broker/BodySize.antt =====
-- `readBody` of mcp_server/src/broker.ts: bodies of up to 1 MiB, whatever their chunks.
use mathlib.Core.List.{append-nil, append_assoc}
use cccollab.Base.{
  ℕ, ◌+◌, ◌≤◌, ◌≡◌, none, some, List, [], ◌∷◌, ◌++◌, arith, Bool-cases, inl, inr, if◌then◌else◌,
  length, length-append, ltb, ◌||◌,
}
use cccollab.Broker.State.{Request}
use cccollab.Broker.Channels.{read_body, read_chunks, max_body_size}

-- All of a body's bytes.
pub all_bytes : List (List ℕ) → List ℕ
all_bytes [] = []
all_bytes (chunk ∷ chunks) = chunk ++ all_bytes chunks

-- A limit of the sizes so far bounds the whole, since they only grow.
read_chunks_lem :
    (got : List ℕ) (size : ℕ) (chunks : List (List ℕ))
    → size ≤ max_body_size
    → read_chunks got size chunks ≡ (
        if ltb max_body_size (size + length (all_bytes chunks))
        then none
        else some (got ++ all_bytes chunks))
unfolding read_chunks all_bytes
read_chunks_lem got size [] le = ground (arith, append-nil got)
read_chunks_lem got size (chunk ∷ chunks) le =
    elim (Bool-cases (ltb max_body_size (size + length chunk))) [
      | inl over ↦ ground (arith, over, length-append chunk (all_bytes chunks))
      | inr under ↦ ground (
        arith,
        under,
        read_chunks_lem (got ++ chunk) (size + length chunk) chunks (ground (arith, under)),
        length-append chunk (all_bytes chunks),
        append_assoc got chunk (all_bytes chunks),
      )
    ]

-- A body is read exactly if the connection does not fail and its chunks have at most 1 MiB
-- together; then it is the chunks' bytes in order, however they were cut.
pub read_body_lem :
    (req : Request)
    → read_body req ≡ (
        if req.failed || ltb max_body_size (length (all_bytes req.chunks))
        then none
        else some (all_bytes req.chunks))
unfolding read_body
read_body_lem req = ground (arith, read_chunks_lem [] 0 req.chunks (omega arith))
