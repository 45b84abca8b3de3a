-- ===== src/Notifications/Model.antt =====
-- The rows of packages/asas-notifications/src/asas_notifications/models.py, and what the host wires
-- into service.py. Moments are numbers; a row's `resolved_at`, which nothing writes, and names for
-- screens are left out.
use asas.Base.{ℕ, String, Bool, Option, none, some, List, Fields}

pub record Notification : Type 0 where
  pub id : ℕ
  pub org_id : String
  pub user_id : String
  pub action : Option String
  pub topic : Option String
  pub importance : String
  pub entity_type : Option String
  pub entity_id : Option String
  pub title : String
  pub body : Option String
  pub link : Option String
  pub template : Option String
  pub data_ : Option Fields
  pub read_at : Option ℕ
  pub archived_at : Option ℕ
  pub locale : Option String
  pub created_at : ℕ

pub data DeliveryStatus : Type 0 where
  pending sending sent failed skipped : DeliveryStatus

abbrev pub is_pending : DeliveryStatus → Bool
is_pending s = elim s [ pending ↦ Bool.true | _ ↦ Bool.false ]

abbrev pub is_sending : DeliveryStatus → Bool
is_sending s = elim s [ sending ↦ Bool.true | _ ↦ Bool.false ]

abbrev pub is_sent : DeliveryStatus → Bool
is_sent s = elim s [ sent ↦ Bool.true | _ ↦ Bool.false ]

pub record NotificationDelivery : Type 0 where
  pub id : ℕ
  pub notification_id : ℕ
  pub org_id : Option String
  pub channel : String
  pub status : DeliveryStatus
  pub attempts : ℕ
  pub claimed_at : Option ℕ
  pub sent_at : Option ℕ
  pub last_error : Option String

pub record NotificationTopic : Type 0 where
  pub org_id : Option String
  pub key : String

pub record NotificationImportance : Type 0 where
  pub org_id : Option String
  pub key : String
  pub emails_by_default : Bool

pub record NotificationChannelPolicy : Type 0 where
  pub id : ℕ
  pub org_id : Option String
  pub topic : Option String
  pub importance : Option String
  pub channel : String
  pub enabled : Bool
  pub mandatory : Bool

-- The configuration tables.
pub record Tables : Type 0 where
  pub topics : List NotificationTopic
  pub importances : List NotificationImportance
  pub policies : List NotificationChannelPolicy

pub record KindSpec : Type 0 where
  pub importance : String
  pub topic : String

-- What the host gives: how its identities are written and compared, who the request is for, and its
-- hooks. `U` are its identities and `R` its subject rows.
pub record Host (U R : Type 0) : Type 0 where
  pub text_of : U → String
  pub same : U → U → Bool
  pub context : Option (Option U × Option U)
  pub locale_of : Option (U → Option String)
  pub recipient_filter : Option (List U → String → Option U → Option R → List U)
  pub kinds : List (String × KindSpec)
  pub suppressed : Bool

module _ {U R : Type 0} (host : Host U R) where
  unfoldable pub normalize_id : Option U → Option String
  normalize_id none = none
  normalize_id (some u) = some (host.text_of u)

  unfoldable pub current_user_id : Option U
  current_user_id = elim host.context [ none ↦ none | some (user, org) ↦ user ]

  unfoldable pub current_org_id : Option U
  current_org_id = elim host.context [ none ↦ none | some (user, org) ↦ org ]
