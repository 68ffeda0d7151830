-- ===== src/Blocking/Quiet.antt =====
-- What `subscribe` and `unsubscribe` of zcm/blocking.cpp do to the transport.
use zcm.Prelude.{ℕ, Bool, true, false, Bool-cases, inl, inr, List, [], ◌∷◌, Option, none, some}
use zcm.Transport.{Methods}
use zcm.Nonblocking.{is_regex_channel}
use zcm.Blocking.Dispatch.{
  Sub, Subs, is_ok, delete_from_sub_list, disable_last, delete_found, delete_in, blocking_subscribe,
  blocking_unsubscribe,
}

-- A transport that nothing but `recvmsg_enable` was called on, so that no message was given to it.
pub data Quiet {T : Type 0} (m : Methods T) (zt : T) : T → Type 0 where
  untouched : Quiet m zt zt
  enabled :
      {t : T} (channel : List ℕ) (enable : Bool)
      → Quiet m zt t
      → Quiet m zt (m.recvmsg_enable t channel enable).1

module _ {T : Type 0} (m : Methods T) (zt : T) where
  pub subscribe-Quiet :
      (locked : Bool) (address : ℕ) (subs : Subs) (t : T) (channel : List ℕ) (cb usr : ℕ)
      → Quiet m zt t
      → Quiet m zt (blocking_subscribe m locked address subs t channel cb usr).1.1
  unfolding blocking_subscribe
  subscribe-Quiet false address subs t channel cb usr q = q
  subscribe-Quiet true address subs t channel cb usr q =
      elim (Bool-cases (is_ok (m.recvmsg_enable t channel true).0)) [
        | inr e ↦ rw e (enabled channel true q)
        | inl e ↦ elim (Bool-cases (is_regex_channel channel)) [
          | inl r ↦ rw (e, r) (enabled channel true q)
          | inr r ↦ rw (e, r) (enabled channel true q)
        ]
      ]

  disable_last-Quiet :
      (list : List Sub) (t : T) (channel : List ℕ)
      → Quiet m zt t
      → Quiet m zt (disable_last m list t channel).1
  disable_last-Quiet [] t channel q = enabled channel false q
  disable_last-Quiet (s ∷ list) t channel q = q

  delete_found-Quiet :
      (sub : Sub) (subs : Subs) (t : T) (found : Option (List Sub))
      → Quiet m zt t
      → Quiet m zt (delete_found m sub subs t found).1.1
  delete_found-Quiet sub subs t none q = q
  delete_found-Quiet sub subs t (some list) q = disable_last-Quiet list t sub.channel q

  delete_in-Quiet :
      (sub : Sub) (subs : Subs) (t : T) (found : Option (List Sub))
      → Quiet m zt t
      → Quiet m zt (delete_in m sub subs t found).1.1
  delete_in-Quiet sub subs t none q = q
  delete_in-Quiet sub subs t (some list) q =
      delete_found-Quiet sub subs t (delete_from_sub_list list sub.address) q

  pub unsubscribe-Quiet :
      (locked : Bool) (sub : Sub) (subs : Subs) (t : T)
      → Quiet m zt t
      → Quiet m zt (blocking_unsubscribe m locked sub subs t).1.1
  unfolding blocking_unsubscribe
  unsubscribe-Quiet false sub subs t q = q
  unsubscribe-Quiet true sub subs t q = delete_in-Quiet sub subs t _ q
