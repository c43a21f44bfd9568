-- ===== src/Streams/Service.antt =====
-- apps/api/internal/streams/service.go over the repository of this model. URL parsing and the
-- metadata provider are arguments; `none` is a service without a provider.
use stream_analysis_tools.Base.{ℕ, Bytes, List, Option, none, some, Time}
use stream_analysis_tools.Errors.{Result, ok, err, ◌>>=◌, metadata_provider_unavailable}
use stream_analysis_tools.Sql.Rows.{Database}
use stream_analysis_tools.Sql.Session
use stream_analysis_tools.Sql.Session.{Session, lift}
use stream_analysis_tools.Streams.Model.{Stream, ListItem, Metadata, ListOptions}
use stream_analysis_tools.Streams.Normalize.{normalize_metadata}
use stream_analysis_tools.Streams.Repository
use stream_analysis_tools.Streams.Url.{YouTubeUrl}

module _ (parse_youtube_url : Bytes → Result YouTubeUrl)
    (provider : Option (Bytes → Result Metadata)) where
  -- `fmt.Errorf("validate YouTube metadata: %w", ErrMetadataProviderUnavailable)`
  abbrev validated : Result Metadata → Result Metadata
  validated (ok m) = ok m
  validated (err e) = err metadata_provider_unavailable

  abbrev fetched : Option (Bytes → Result Metadata) → YouTubeUrl → Result Metadata
  fetched none identity = err metadata_provider_unavailable
  fetched (some fetch) identity = fetch identity.video_id >>= λ m. validated (
      normalize_metadata
        (record m { youtube_video_id = identity.video_id; canonical_url = identity.canonical_url }))

  -- `fetchMetadata`, and `Preview`
  unfoldable pub fetch_metadata : Bytes → Result Metadata
  fetch_metadata raw_url = parse_youtube_url raw_url >>= fetched provider

  -- `Register`
  unfoldable pub register : ℕ → Time → Bytes → Session Database Stream
  unfolding fetch_metadata
  register fresh now raw_url =
      Session.◌>>=◌ (lift (fetch_metadata raw_url)) (Repository.create fresh now)

-- `List`, `ListItems` and `Get`
unfoldable pub list : ListOptions → Session Database (List Stream)
list options = Repository.list options

unfoldable pub list_items : ListOptions → Session Database (List ListItem)
list_items options = Repository.list_items options

unfoldable pub get : ℕ → Session Database Stream
get id = Repository.get id
