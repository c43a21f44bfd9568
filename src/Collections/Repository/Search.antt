-- ===== src/Collections/Repository/Search.antt =====
-- What the rows of `SearchMessages` of apps/api/internal/collections/repository.go hold.
use stream_analysis_tools.Base.{ℕ, ◌≡◌, refl, ap, Bool, ◌&&◌, Bytes, List, [], ◌∷◌}
use stream_analysis_tools.Collections.Repository.Like.{contains, ilike-search_pattern}
use stream_analysis_tools.Collections.Repository.Messages.{message_before, in_stream, matches}
use stream_analysis_tools.Sql.Rows.{MessageRow, Database}
use stream_analysis_tools.Sql.Table.{filter, order_by}

-- The messages of a stream whose text contains the query, in their order.
abbrev pub containing : (ℕ → ℕ → Bool) → ℕ → Bytes → Database → List MessageRow
containing same stream_id query db =
    order_by message_before
      (filter (λ m. in_stream stream_id m && contains same query m.message_text) db.messages)

filter-same :
    (f g : MessageRow → Bool)
    → ((m : MessageRow) → f m ≡ g m)
    → (ms : List MessageRow) → filter f ms ≡ filter g ms
unfolding filter
filter-same f g h [] = refl
filter-same f g h (m ∷ ms) = rw (h m) (rw (filter-same f g h ms) refl)

-- The rows of a search are those whose text contains the query as it is written.
pub matches-containing :
    (same : ℕ → ℕ → Bool) (stream_id : ℕ) (query : Bytes) (db : Database)
    → order_by message_before (filter (matches same stream_id query) db.messages)
      ≡ containing same stream_id query db
matches-containing same stream_id query db = ap (order_by message_before) (
    filter-same _ _
      (λ m. ap (λ b. in_stream stream_id m && b) (ilike-search_pattern same query m.message_text))
      db.messages)
