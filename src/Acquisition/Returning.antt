-- ===== src/Acquisition/Returning.antt =====
-- When an acquisition returns (web_listening/blocks/acquisition_fallback.py,
-- `acquire_with_fallback_result`).
use web_listening.Prelude.{◌⊎◌, Text, ◌≡◌, ◌≢◌, none}
use web_listening.Acquisition.Data.{Profile, ToolResult, unsafe_escalation}
use web_listening.Acquisition.Capture.{Externals}
use web_listening.Acquisition.Resolve.{Failure, invalid_url}
use web_listening.Acquisition.Engine.{Engine, Outcome, returns, raises}

abbrev IsOpen : ToolResult → Type 0
IsOpen r = r.stop_reason ≢ unsafe_escalation

-- A result is returned, and not for an adapter that was not permitted; or `urlparse` raises its
-- `ValueError` at some URL.
abbrev pub IsReturned : Externals → Outcome → Type 0
IsReturned e o =
    ((r : ToolResult) × (o ≡ returns r) × (r.stop_reason ≢ unsafe_escalation))
    ⊎ ((o ≡ raises invalid_url) × ((url : Text) × (e.urlparse url ≡ none)))

-- What such a raise of the engine is.
abbrev IsMisread : Externals → Failure → Type 0
IsMisread e f = (f ≡ invalid_url) × ((url : Text) × (e.urlparse url ≡ none))
