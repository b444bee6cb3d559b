-- ===== src/Events/Publisher/Description.antt =====
-- What each domain event says, told apart from the publisher's own handlers.
use avt_tracker.Base.{ℕ, List, [], ◌∷◌, ◌++◌, Option, none, some, if◌then◌else◌, ◌≤◌, suc}
use avt_tracker.Base.Text.{codes, Text}
use avt_tracker.Events.Outbox.{NewEvent}
use avt_tracker.Events.Publisher.{
  disconnected_content, connected_content, report_content, starlink_device_disconnected,
  starlink_device_connected, starlink_report_received, device_disconnected, device_connected,
  report_received, EventContent, DomainEvent, Message, Outcome,
}

-- A domain event with the time of its handler and what becomes of it.
pub record Emitted (Report : Type 0) : Type 0 where
  pub now : ℕ
  pub event : DomainEvent Report
  pub outcome : Outcome

-- No handler runs before the time, and each one later than the one before it.
abbrev pub IsInOrder : {Report : Type 0} → ℕ → List (Emitted Report) → Type 0
IsInOrder time [] = Unit
IsInOrder time (e ∷ emitted) = (time ≤ e.now) × IsInOrder (suc e.now) emitted

-- What there is to tell of an event.
pub record Facts (Report : Type 0) : Type 0 where
  pub device : Text
  pub fact : Text
  pub details : EventContent Report

module _ {Report : Type 0} where
  -- Who tells of an event.
  abbrev pub vendor_of : DomainEvent Report → Text
  vendor_of (report_received device report) = codes "tracker"
  vendor_of (device_connected device address port at) = codes "tracker"
  vendor_of (device_disconnected device address port at) = codes "tracker"
  vendor_of (starlink_report_received device report) = codes "starlink"
  vendor_of (starlink_device_connected device address port at) = codes "starlink"
  vendor_of (starlink_device_disconnected device address port at) = codes "starlink"

  -- The same for both vendors.
  abbrev pub facts_of : DomainEvent Report → Facts Report
  facts_of (report_received device report) = record {
    device = device;
    fact = codes "report.received";
    details = report_content report;
  }
  facts_of (starlink_report_received device report) = record {
    device = device;
    fact = codes "report.received";
    details = report_content report;
  }
  facts_of (device_connected device address port at) = record {
    device = device;
    fact = codes "device.connected";
    details = connected_content address port at;
  }
  facts_of (starlink_device_connected device address port at) = record {
    device = device;
    fact = codes "device.connected";
    details = connected_content address port at;
  }
  facts_of (device_disconnected device address port at) = record {
    device = device;
    fact = codes "device.disconnected";
    details = disconnected_content address port at;
  }
  facts_of (starlink_device_disconnected device address port at) = record {
    device = device;
    fact = codes "device.disconnected";
    details = disconnected_content address port at;
  }

  -- The name of a type of events: `vendor.fact`.
  abbrev pub type_of : DomainEvent Report → Text
  type_of event = vendor_of event ++ (b'.' ∷ (facts_of event).fact)

  abbrev pub entries : List (Emitted Report) → List (NewEvent (EventContent Report))
  entries [] = []
  entries (e ∷ emitted) =
      (if e.outcome.outbox_takes
        then record {
          event_type = type_of e.event;
          imei = (facts_of e.event).device;
          content = (facts_of e.event).details;
          occurred_at = e.now;
        }
          ∷ []
        else [])
      ++ entries emitted

  -- A message repeats the type and the device of its envelope in its attributes.
  abbrev pub message_of : Text → Emitted Report → Message Report
  message_of topic_arn e = record {
    topic_arn = topic_arn;
    envelope = record {
      event_type = type_of e.event;
      occurred_at = e.now;
      imei = (facts_of e.event).device;
      content = (facts_of e.event).details;
    };
    type_attribute = type_of e.event;
    imei_attribute = (facts_of e.event).device;
  }

  abbrev pub messages : Text → List (Emitted Report) → List (Message Report)
  messages topic_arn [] = []
  messages topic_arn (e ∷ emitted) =
      (if e.outcome.sns_takes then message_of topic_arn e ∷ [] else [])
      ++ messages topic_arn emitted

  -- No topic, or an empty name: nothing is sent.
  abbrev pub messages_to : Option Text → List (Emitted Report) → List (Message Report)
  messages_to none emitted = []
  messages_to (some []) emitted = []
  messages_to (some (c ∷ topic_arn)) emitted = messages (c ∷ topic_arn) emitted
