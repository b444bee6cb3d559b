-- ===== src/Events/Publisher.antt =====
-- src/tracker/publishing/tracker-event-publisher.service.ts: each domain event goes to the outbox
-- and to SNS. A time is a number of milliseconds; what `JSON.stringify` is given stands for the
-- message. Whether the database and SNS take what they are given is an argument.
pub mod Description
pub mod Streams
pub mod Runs
use avt_tracker.Base.{ℕ, List, [], ◌∷◌, ◌++◌, Option, none, some, Bool, true, false, if◌then◌else◌}
use avt_tracker.Base.Text.{Text, codes}
use avt_tracker.Events.Outbox.{EventRepository, record_event}

-- The column `data`, by the event's handler.
pub data EventContent (Report : Type 0) : Type 0 where
  report_content : Report → EventContent Report
  connected_content : Option Text → Option ℕ → ℕ → EventContent Report
  disconnected_content : Option Text → Option ℕ → ℕ → EventContent Report

pub data DomainEvent (Report : Type 0) : Type 0 where
  report_received : Text → Report → DomainEvent Report
  device_connected : Text → Option Text → Option ℕ → ℕ → DomainEvent Report
  device_disconnected : Text → Option Text → Option ℕ → ℕ → DomainEvent Report
  starlink_report_received : Text → Report → DomainEvent Report
  starlink_device_connected : Text → Option Text → Option ℕ → ℕ → DomainEvent Report
  starlink_device_disconnected : Text → Option Text → Option ℕ → ℕ → DomainEvent Report

-- `TrackerEventEnvelope`; its version is always 1.
pub record Envelope (Report : Type 0) : Type 0 where
  pub event_type : Text
  pub occurred_at : ℕ
  pub imei : Text
  pub content : EventContent Report

-- `PublishCommand`; its attributes repeat the event's type and the IMEI.
pub record Message (Report : Type 0) : Type 0 where
  pub topic_arn : Text
  pub envelope : Envelope Report
  pub type_attribute : Text
  pub imei_attribute : Text

-- Which of the two destinations takes what it is given.
pub record Outcome : Type 0 where
  pub outbox_takes : Bool
  pub sns_takes : Bool

module _ {Report : Type 0} where
  -- `if (!this.client || !this.topicArn)`: an empty name is like none.
  abbrev pub publish :
      Option Text → Envelope Report → Bool → List (Message Report) → List (Message Report)
  publish none envelope takes sent = sent
  publish (some []) envelope takes sent = sent
  publish (some (c ∷ arn)) envelope takes sent =
      if takes
      then sent
        ++ (record {
          topic_arn = c ∷ arn;
          envelope = envelope;
          type_attribute = envelope.event_type;
          imei_attribute = envelope.imei;
        }
            ∷ [])
      else sent

  -- The three arguments of `dispatch` in the event's handler, and the time.
  abbrev pub envelope_of : ℕ → DomainEvent Report → Envelope Report
  envelope_of now (report_received imei report) = record {
    event_type = codes "tracker.report.received";
    occurred_at = now;
    imei = imei;
    content = report_content report;
  }
  envelope_of now (device_connected imei address port at) = record {
    event_type = codes "tracker.device.connected";
    occurred_at = now;
    imei = imei;
    content = connected_content address port at;
  }
  envelope_of now (device_disconnected imei address port at) = record {
    event_type = codes "tracker.device.disconnected";
    occurred_at = now;
    imei = imei;
    content = disconnected_content address port at;
  }
  envelope_of now (starlink_report_received device_id report) = record {
    event_type = codes "starlink.report.received";
    occurred_at = now;
    imei = device_id;
    content = report_content report;
  }
  envelope_of now (starlink_device_connected device_id address port at) = record {
    event_type = codes "starlink.device.connected";
    occurred_at = now;
    imei = device_id;
    content = connected_content address port at;
  }
  envelope_of now (starlink_device_disconnected device_id address port at) = record {
    event_type = codes "starlink.device.disconnected";
    occurred_at = now;
    imei = device_id;
    content = disconnected_content address port at;
  }

module _ {Report : Type 0} (events : EventRepository (EventContent Report)) where
  pub record Destinations : Type 0 where
    pub table : events.Table
    pub sent : List (Message Report)

  -- `dispatch`
  unfoldable pub dispatch : Option Text → Envelope Report → Outcome → Destinations → Destinations
  dispatch topic_arn e outcome d = record {
    table =
        if outcome.outbox_takes
        then (record_event events e.event_type e.imei e.content e.occurred_at d.table).1
        else d.table;
    sent = publish topic_arn e outcome.sns_takes d.sent;
  }

  -- A handler of the service.
  unfoldable pub handle_event :
      Option Text → ℕ → DomainEvent Report → Outcome → Destinations → Destinations
  handle_event topic_arn now event outcome d = dispatch topic_arn (envelope_of now event) outcome d
