-- ===== src/Streams/Url.antt =====
-- apps/api/internal/streams/url.go
use stream_analysis_tools.Base.{Bytes}

pub record YouTubeUrl : Type 0 where
  pub video_id : Bytes
  pub canonical_url : Bytes
