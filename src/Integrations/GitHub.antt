-- ===== src/Integrations/GitHub.antt =====
-- app/integrations/github: models.py and client.py. The HTTP client is a library: it enters as
-- the functions `get` and `post` over a world `W` that they may change, and in which other tasks
-- of the event loop may run meanwhile.
pub mod Requests
pub mod Client
pub mod Parsing
pub mod Outcome
use github_webhook_monitor.Prelude.{ℕ, ℤ, String, Bool, Option, List}
use github_webhook_monitor.Domain.Datetime.{Datetime}
use github_webhook_monitor.Domain.Json.{Json}

-- The duration is a float; it keeps the JSON number that it comes from.
pub record GitHubDeliverySummary : Type 0 where
  pub github_delivery_id : ℤ
  pub delivery_guid : String
  pub delivered_at : Datetime
  pub redelivery : Bool
  pub duration : Option Json
  pub status : Option String
  pub status_code : Option ℤ
  pub event : Option String
  pub action : Option String
  pub installation_id : Option ℤ
  pub repository_id : Option ℤ
  pub throttled_at : Option Datetime

pub record GitHubDeliveryPage : Type 0 where
  pub deliveries : List GitHubDeliverySummary
  pub next_cursor : Option String

-- A response, as far as the program reads it: `json` is none where `response.json()` raises a
-- ValueError.
pub record Response : Type 0 where
  pub status_code : ℕ
  pub header : String → Option String
  pub json : Option Json

-- The exceptions of a request, by the class that the program tells apart: `ConnectError` and
-- `ConnectTimeout`, any other `TimeoutException`, any other `NetworkError`, any other
-- `RequestError`.
pub data Fault : Type 0 where
  connect_error connect_timeout timeout network_error request_error : Fault

pub data Reply : Type 0 where
  response : Response → Reply
  fault : Fault → Reply
