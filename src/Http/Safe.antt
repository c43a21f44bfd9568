-- ===== src/Http/Safe.antt =====
-- Requests that change nothing: the server of apps/api/internal/httpapi/router.go behind
-- apps/api/internal/generated/openapiv1/api.gen.go.
use stream_analysis_tools.Base.{
  ℕ, ◌≡◌, refl, subst, All, ◌∙◌, ◌⊎◌, inl, inr, Bool, true, false, Bytes, codes, bytes_eq, List, [],
  ◌∷◌, Option, none, some, arith, if◌then◌else◌,
}
use stream_analysis_tools.Errors.{Error, Result, ok, err}
use stream_analysis_tools.Http.Collections.{
  get_latest_collection, list_chat_messages, search_chat_messages, get_chat_activity,
}
use stream_analysis_tools.Http.Problems.{Problem}
use stream_analysis_tools.Http.Reads.{
  list_items-Reads, get-Reads, get_reservation-Reads, list_reservations-Reads, latest-Reads,
  chat_activity-Reads, list_messages-Reads, search_messages-Reads,
}
use stream_analysis_tools.Http.Reservations.{list_reservations, get_reservation}
use stream_analysis_tools.Http.Routes.{
  Request, Packages, Surroundings, Operation, Pattern, patterns, match_segments, find_pattern,
  route, chosen,
}
use stream_analysis_tools.Http.Server.{bound, dispatch, by_mux, is_checked, serve}
use stream_analysis_tools.Http.Streams.{
  Handler, respond, parsed, answered, get_health, list_streams, get_stream,
}
use stream_analysis_tools.Http.Types.{Answer}
use stream_analysis_tools.Sql.Rows.{Database}
use stream_analysis_tools.Sql.Session.{World, Session}
use stream_analysis_tools.Sql.Session.Reads.{Reads}

-- A handler that changes nothing.
record Keeps (h : Handler) : Type 0 where
  at : (w : World Database) → (h w).1.db ≡ w.db

respond-Keeps :
    {A : Type 0} (problem_of : Error → Problem × ℕ) (success : A → Answer)
    (call : Session Database A)
    → Reads call
    → Keeps (respond problem_of success call)
unfolding respond
respond-Keeps {A} problem_of success call h = record { at = λ w. after (call w) ∙ h.at w }
  where
    after : (r : Result A × World Database) → (answered problem_of success r).1.db ≡ r.1.db
    after (ok a, w) = refl
    after (err e, w) = refl

parsed-Keeps : (id : Option ℕ) (f : ℕ → Handler) → ((n : ℕ) → Keeps (f n)) → Keeps (parsed id f)
unfolding parsed
parsed-Keeps none f h = record { at = λ w. refl }
parsed-Keeps (some n) f h = h n

bound-Keeps :
    {A : Type 0} (o : Option A) (f : A → Handler) → ((a : A) → Keeps (f a)) → Keeps (bound o f)
unfolding bound
bound-Keeps none f h = record { at = λ w. refl }
bound-Keeps (some a) f h = h a

-- The operations of GET.
abbrev pub is_read : Operation → Bool
is_read Operation.preview_stream_op = false
is_read Operation.create_stream_op = false
is_read Operation.start_collection_op = false
is_read Operation.retry_collection_op = false
is_read Operation.create_reservation_op = false
is_read Operation.cancel_reservation_op = false
is_read _ = true

module _ (packages : Packages) (now : Surroundings) where
  dispatch-Keeps :
      (o : Operation) (value : Bytes) (r : Request)
      → is_read o ≡ true
      → Keeps (dispatch packages now o value r)
  unfolding dispatch get_health list_streams get_stream get_latest_collection list_chat_messages
      search_chat_messages get_chat_activity list_reservations get_reservation
  dispatch-Keeps Operation.get_health_op value r h = record { at = λ w. refl }
  dispatch-Keeps Operation.list_streams_op value r h =
      bound-Keeps _ _ λ limit. bound-Keeps _ _ λ offset. respond-Keeps _ _ _ (list_items-Reads _)
  dispatch-Keeps Operation.get_stream_op value r h =
      bound-Keeps _ _ λ id. parsed-Keeps _ _ λ n. respond-Keeps _ _ _ (get-Reads n)
  dispatch-Keeps Operation.get_latest_collection_op value r h =
      bound-Keeps _ _ λ id. parsed-Keeps _ _ λ n. respond-Keeps _ _ _ (latest-Reads n)
  dispatch-Keeps Operation.list_chat_messages_op value r h = bound-Keeps _ _ λ id.
      bound-Keeps _ _ λ limit.
        bound-Keeps _ _
          λ cursor. parsed-Keeps _ _ λ n. respond-Keeps _ _ _ (list_messages-Reads _ _ n _ _)
  dispatch-Keeps Operation.search_chat_messages_op value r h = bound-Keeps _ _ λ id.
      bound-Keeps _ _ λ q. bound-Keeps _ _ λ limit. bound-Keeps _ _ λ cursor.
        parsed-Keeps _ _ λ n. respond-Keeps _ _ _ (search_messages-Reads _ _ now.same n q _ _)
  dispatch-Keeps Operation.get_chat_activity_op value r h = bound-Keeps _ _ λ id.
      bound-Keeps _ _ λ seconds. parsed-Keeps _ _ λ n. respond-Keeps _ _ _ (chat_activity-Reads n _)
  dispatch-Keeps Operation.list_reservations_op value r h =
      bound-Keeps _ _
        λ limit. bound-Keeps _ _ λ offset. respond-Keeps _ _ _ (list_reservations-Reads _)
  dispatch-Keeps Operation.get_reservation_op value r h =
      bound-Keeps _ _ λ id. parsed-Keeps _ _ λ n. respond-Keeps _ _ _ (get_reservation-Reads n)
  dispatch-Keeps Operation.preview_stream_op value r h = absurd (cc)
  dispatch-Keeps Operation.create_stream_op value r h = absurd (cc)
  dispatch-Keeps Operation.start_collection_op value r h = absurd (cc)
  dispatch-Keeps Operation.retry_collection_op value r h = absurd (cc)
  dispatch-Keeps Operation.create_reservation_op value r h = absurd (cc)
  dispatch-Keeps Operation.cancel_reservation_op value r h = absurd (cc)

-- Every pattern that is not one of POST has an operation of GET.
abbrev Tagged : Pattern → Type 0
Tagged p = (is_read p.operation ≡ true) ⊎ (codes p.method ≡ codes "POST")

patterns-Tagged : All Tagged patterns
patterns-Tagged = (
  inl refl,
  (
    inr refl,
    (
      inl refl,
      (
        inr refl,
        (
          inl refl,
          (
            inr refl,
            (
              inl refl,
              (
                inr refl,
                (
                  inl refl,
                  (inl refl, (inl refl, (inl refl, (inr refl, (inl refl, (inr refl, tt)))))),
                ),
              ),
            ),
          ),
        ),
      ),
    ),
  ),
)

chosen_read :
    (o p : Operation) (v value : Bytes) (found : Option Bytes) (rest : Option (Operation × Bytes))
    → is_read p ≡ true
    → chosen p found rest ≡ some (o, v)
    → (rest ≡ some (o, v)) ⊎ (is_read o ≡ true)
chosen_read o p v value none rest h e = inl e
chosen_read o p v value (some x) rest h e =
    let same : p ≡ o = ground arith in inr (subst (λ q. is_read q ≡ true) same h)

selected_read :
    (method : Bytes) (p : Pattern) (o : Operation) (v : Bytes) (found : Option Bytes)
    (rest : Option (Operation × Bytes)) (b : Bool)
    → bytes_eq method (codes "POST") ≡ false
    → Tagged p
    → bytes_eq method (codes p.method) ≡ b
    → (if b then chosen p.operation found rest else rest) ≡ some (o, v)
    → (rest ≡ some (o, v)) ⊎ (is_read o ≡ true)
selected_read method p o v found rest false h t b e = inl e
selected_read method p o v found rest true h (inl read) b e =
    chosen_read o p.operation v v found rest read e
selected_read method p o v found rest true h (inr post) b e =
    absurd (differ (subst (λ m. bytes_eq method m ≡ true) post b) h)
  where
    differ : {x : Bool} → x ≡ true → x ≡ false → ⊥
    differ e f = cc

find_pattern_read :
    (method : Bytes) (segments : List Bytes) (ps : List Pattern) (o : Operation) (v : Bytes)
    → bytes_eq method (codes "POST") ≡ false
    → All Tagged ps
    → find_pattern method segments ps ≡ some (o, v)
    → is_read o ≡ true
unfolding find_pattern
find_pattern_read method segments [] o v h t e = absurd (cc)
find_pattern_read method segments (p ∷ ps) o v h t e =
    elim (selected_read method p o v (match_segments p.segments segments)
      (find_pattern method segments ps) (bytes_eq method (codes p.method)) h t.0 refl e) [
        | inl r ↦ find_pattern_read method segments ps o v h t.1 r
        | inr read ↦ read
      ]

by_mux_keeps :
    (packages : Packages) (now : Surroundings) (found : Option (Operation × Bytes)) (r : Request)
    (w : World Database)
    → ((o : Operation) (v : Bytes) → found ≡ some (o, v) → is_read o ≡ true)
    → (by_mux packages now found r w).1.db ≡ w.db
by_mux_keeps packages now none r w h = refl
by_mux_keeps packages now (some (o, v)) r w h =
    (dispatch-Keeps packages now o v r (h o v refl)).at w

-- A request whose method is not POST leaves the database as it is, whatever its path, its query and
-- its body are and whichever calls of the database fail.
pub serve_keeps :
    (packages : Packages) (now : Surroundings) (r : Request) (w : World Database)
    → bytes_eq r.method (codes "POST") ≡ false
    → (serve packages now r w).1.db ≡ w.db
unfolding serve route
serve_keeps packages now r w h =
    let unchecked : is_checked packages r ≡ false = rw h refl in
    rw unchecked (
      by_mux_keeps packages now (route r) r w
        (λ o v e. find_pattern_read r.method _ patterns o v h patterns-Tagged e))
