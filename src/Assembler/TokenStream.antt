-- ===== src/Assembler/TokenStream.antt =====
-- src/utils/token_stream/token_stream.c. The nodes do not change once the stream is built, so a
-- pointer to a node is the list of the tokens from that node on, and NULL the empty list.
pub mod Built
use bitcode.Base.{List, [], ◌∷◌, ◌++◌, Option, none, some}
use bitcode.Base.Stateful.{Stateful, pure, ◌>>=◌}
use bitcode.Arena.{MemoryArena, arena_alloc}
use bitcode.Assembler.Tokens.{Token, zero_token}

pub record TokenStream : Type 0 where
  pub head : List Token
  pub current : List Token

-- The token of a list of nodes; behind the last one it is a token of zero bytes.
unfoldable pub first_token : List Token → Token
first_token [] = zero_token
first_token (t ∷ ts) = t

unfoldable pub rest_tokens : List Token → List Token
rest_tokens [] = []
rest_tokens (t ∷ ts) = ts

unfoldable pub peek : TokenStream → Token
unfolding first_token
peek ts = first_token ts.current

-- The stream behind `consume`.
unfoldable pub consume : TokenStream → TokenStream
unfolding rest_tokens
consume ts = record ts { current = rest_tokens ts.current }

-- One node after the other, each linked behind the last of those built so far.
unfoldable pub link_nodes : List Token → List Token → Stateful MemoryArena (List Token)
link_nodes built [] = pure built
link_nodes built (t ∷ ts) = do node ← arena_alloc 40; link_nodes (built ++ t ∷ []) ts

-- `none` is NULL, for no tokens.
unfoldable pub build_token_stream : List Token → Stateful MemoryArena (Option TokenStream)
build_token_stream [] = pure none
build_token_stream (t ∷ ts) = do
  stream ← arena_alloc 16
  nodes ← link_nodes [] (t ∷ ts)
  pure (some (record { head = nodes; current = nodes }))
