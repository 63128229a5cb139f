-- ===== src/Service/Delivery.antt =====
-- What queueing a message for every client does to the table of clients.
use rust_state_machine_cowbo.Prelude.{[], ◌∷◌, Option, none, some, ◌≡◌, refl, ap, arith, string_eq}
use mathlib.Core.Option
use rust_state_machine_cowbo.HashMap.{HashMap, is_some}
use rust_state_machine_cowbo.HashMap
use rust_state_machine_cowbo.Protocol.{ApplicationId, SamToApplication}
use rust_state_machine_cowbo.Service.State.{ClientConnection, deliver, deliver_all}

module _ {Sender : Type 0} (try_send : Sender → SamToApplication → Option Sender) where
  pub id-deliver :
      (message : SamToApplication) (client : ClientConnection Sender)
      → (deliver try_send message client).id ≡ client.id
  unfolding deliver
  id-deliver message client = ground arith

  pub get-deliver_all :
      (message : SamToApplication) (a : ApplicationId)
      (clients : HashMap ApplicationId (ClientConnection Sender))
      → HashMap.get a (deliver_all try_send message clients)
        ≡ Option.map (deliver try_send message) (HashMap.get a clients)
  unfolding deliver_all HashMap.get
  get-deliver_all message a [] = refl
  get-deliver_all message a ((b, client) ∷ clients) =
      ground (arith, get-deliver_all message a clients)

  -- The id under which a client is entered, if it is.
  pub id-deliver_all :
      (message : SamToApplication) (a : ApplicationId)
      (clients : HashMap ApplicationId (ClientConnection Sender))
      → Option.map (λ c. c.id) (HashMap.get a (deliver_all try_send message clients))
        ≡ Option.map (λ c. c.id) (HashMap.get a clients)
  id-deliver_all message a clients =
      ground (arith, get-deliver_all message a clients, ids (HashMap.get a clients))
    where
      ids :
          (o : Option (ClientConnection Sender))
          → Option.map (λ c. c.id) (Option.map (deliver try_send message) o)
            ≡ Option.map (λ c. c.id) o
      ids none = refl
      ids (some c) = ap some (id-deliver message c)

  pub keys-deliver_all :
      (message : SamToApplication) (clients : HashMap ApplicationId (ClientConnection Sender))
      → HashMap.keys (deliver_all try_send message clients) ≡ HashMap.keys clients
  unfolding deliver_all HashMap.keys
  keys-deliver_all message [] = refl
  keys-deliver_all message ((b, client) ∷ clients) = ap (◌∷◌ b) (keys-deliver_all message clients)
