-- ===== src/Ws/Service/Mirror.antt =====
-- The two maps of the subscriptions mirror each other.
use nexus_mainframe.Common.{
  ℕ, ◌≡◌, ◌≢◌, refl, ap, ◌∙◌, inl, inr, [], ◌∷◌, Str, Bool, false, not, ◌&&◌, none, some, All,
  Option-cases, if◌then◌else◌, arith,
}
use nexus_mainframe.Common.OrdMap.{
  OrdMap, key_eq, key_eq_iff, find, insert, erase, find-insert, find-erase, All-insert, All-erase,
  find-All, IsSorted, IsSorted-insert, IsSorted-erase,
}
use nexus_mainframe.Common.OrdSet.{OrdSet, member, add, member-add, member-erase}
use nexus_mainframe.Common.Keys.{nat_order, str_order}
use nexus_mainframe.Ws.Service.{
  Subscriptions, subs_of, clients_of, store_or_erase, drop_client, subscribe_client,
  unsubscribe_client, drop_filters, on_ws_close,
}

abbrev pub subscribed : ℕ → Str → Subscriptions → Bool
subscribed id filter s = member filter (subs_of id s.client_subs)

abbrev pub listed : ℕ → Str → Subscriptions → Bool
listed id filter s = member id (clients_of filter s.filter_clients)

abbrev pub SortedSets : OrdMap Str (OrdSet ℕ) → Type 0
SortedSets m = All (λ e. IsSorted e.1) m

-- A client has a filter just when the filter lists the client, no filter has an empty list, and
-- none lists a client twice.
pub record IsMirror (s : Subscriptions) : Type 0 where
  pub same : (id : ℕ) (filter : Str) → subscribed id filter s ≡ listed id filter s
  pub no_empty : (filter : Str) → find filter s.filter_clients ≢ some []
  pub sorted : SortedSets s.filter_clients

member_both : (id : ℕ) (f : Str) → member f [] ≡ member id []
unfolding member find
member_both id f = refl

pub init-IsMirror : IsMirror (record { client_subs = []; filter_clients = [] })
unfolding subs_of clients_of find
init-IsMirror = record { same = λ id f. member_both id f; no_empty = λ f e. cc; sorted = tt }

subs_of-insert :
    (id i : ℕ) (fs : OrdSet Str) (m : OrdMap ℕ (OrdSet Str))
    → subs_of i (insert id fs m) ≡ (if key_eq i id then fs else subs_of i m)
unfolding subs_of
subs_of-insert id i fs m = ground (arith, find-insert id i fs m)

subs_of-erase :
    (id i : ℕ) (m : OrdMap ℕ (OrdSet Str))
    → subs_of i (erase id m) ≡ (if key_eq i id then [] else subs_of i m)
unfolding subs_of
subs_of-erase id i m = ground (arith, find-erase id i m)

clients_of-insert :
    (filter f : Str) (s : OrdSet ℕ) (m : OrdMap Str (OrdSet ℕ))
    → clients_of f (insert filter s m) ≡ (if key_eq f filter then s else clients_of f m)
unfolding clients_of
clients_of-insert filter f s m = ground (arith, find-insert filter f s m)

clients_of-store :
    (filter f : Str) (s : OrdSet ℕ) (m : OrdMap Str (OrdSet ℕ))
    → clients_of f (store_or_erase filter s m) ≡ (if key_eq f filter then s else clients_of f m)
unfolding store_or_erase clients_of
clients_of-store filter f [] m = ground (arith, find-erase filter f m)
clients_of-store filter f (e ∷ s) m = ground (arith, find-insert filter f (e ∷ s) m)

store-no_empty :
    (filter : Str) (s : OrdSet ℕ) (m : OrdMap Str (OrdSet ℕ))
    → ((f : Str) → find f m ≢ some [])
    → (f : Str) → find f (store_or_erase filter s m) ≢ some []
unfolding store_or_erase
store-no_empty filter [] m h f e = ground (arith, e, h f, find-erase filter f m)
store-no_empty filter (x ∷ s) m h f e = ground (arith, e, h f, find-insert filter f (x ∷ s) m)

member_nil : (id : ℕ) → member id [] ≡ false
unfolding member find
member_nil id = refl

member_none : (f : Str) → member f [] ≡ false
unfolding member find
member_none f = refl

add-ne-[] : (id : ℕ) (s : OrdSet ℕ) → add id s ≢ []
add-ne-[] id s e =
    ground (arith, member-add id id s, key_eq_iff id id, ap (member id) e, member_nil id)

clients_of-IsSorted :
    (f : Str) (m : OrdMap Str (OrdSet ℕ)) → SortedSets m → IsSorted (clients_of f m)
unfolding clients_of
clients_of-IsSorted f m a = elim (Option-cases (find f m)) [
  | inl e ↦ rw (e, clients_of) tt
  | inr (s, e) ↦ rw (e, clients_of) (find-All (λ s. IsSorted s) f s m a e)
]

store-SortedSets :
    (f : Str) (s : OrdSet ℕ) (m : OrdMap Str (OrdSet ℕ))
    → IsSorted s
    → SortedSets m
    → SortedSets (store_or_erase f s m)
unfolding store_or_erase
store-SortedSets f [] m h a = All-erase _ f m a
store-SortedSets f (e ∷ s) m h a = All-insert _ f (e ∷ s) m h a

drop-SortedSets :
    (id : ℕ) (f : Str) (m : OrdMap Str (OrdSet ℕ)) → SortedSets m → SortedSets (drop_client id f m)
unfolding drop_client
drop-SortedSets id f m a =
    store-SortedSets f (erase id (clients_of f m)) m
      (IsSorted-erase id (clients_of f m) (clients_of-IsSorted f m a)) a

pub subscribe-IsMirror :
    (id : ℕ) (topic : Str) (s : Subscriptions) → IsMirror s → IsMirror (subscribe_client id topic s)
unfolding subscribe_client
subscribe-IsMirror id topic s m = record {
  same = λ i f. ground (
    arith,
    m.same i f,
    m.same id f,
    m.same i topic,
    subs_of-insert id i (add topic (subs_of id s.client_subs)) s.client_subs,
    clients_of-insert topic f (add id (clients_of topic s.filter_clients)) s.filter_clients,
    member-add topic f (subs_of id s.client_subs),
    member-add id i (clients_of topic s.filter_clients),
    key_eq_iff i id,
    key_eq_iff f topic,
  );
  no_empty = λ f e. ground (
    arith,
    m.no_empty f,
    e,
    find-insert topic f (add id (clients_of topic s.filter_clients)) s.filter_clients,
    add-ne-[] id (clients_of topic s.filter_clients),
  );
  sorted =
      All-insert _ topic (add id (clients_of topic s.filter_clients)) s.filter_clients
        (unfold add in
          IsSorted-insert id tt (clients_of topic s.filter_clients)
            (clients_of-IsSorted topic s.filter_clients m.sorted))
        m.sorted;
}

-- Taking a client off one filter, in both maps.
listed-drop :
    (id i : ℕ) (filter f : Str) (m : OrdMap Str (OrdSet ℕ))
    → member i (clients_of f (drop_client id filter m))
      ≡ (not (key_eq i id && key_eq f filter) && member i (clients_of f m))
unfolding drop_client
listed-drop id i filter f m = ground (
  arith,
  clients_of-store filter f (erase id (clients_of filter m)) m,
  member-erase id i (clients_of filter m),
  key_eq_iff f filter,
)

pub unsubscribe-IsMirror :
    (id : ℕ) (topic : Str) (s : Subscriptions)
    → IsMirror s
    → IsMirror (unsubscribe_client id topic s)
unfolding unsubscribe_client
unsubscribe-IsMirror id topic s m = record {
  same = λ i f. ground (
    arith,
    m.same i f,
    subs_of-insert id i (erase topic (subs_of id s.client_subs)) s.client_subs,
    listed-drop id i topic f s.filter_clients,
    member-erase topic f (subs_of id s.client_subs),
    key_eq_iff i id,
    key_eq_iff f topic,
  );
  no_empty =
      unfold drop_client in
      store-no_empty topic (erase id (clients_of topic s.filter_clients)) s.filter_clients
        m.no_empty;
  sorted = drop-SortedSets id topic s.filter_clients m.sorted;
}

listed-drop_filters :
    (id i : ℕ) (f : Str) (fs : OrdSet Str) (m : OrdMap Str (OrdSet ℕ))
    → member i (clients_of f (drop_filters id fs m))
      ≡ (not (key_eq i id && member f fs) && member i (clients_of f m))
unfolding drop_filters member find
listed-drop_filters id i f [] m = ground arith
listed-drop_filters id i f ((g, u) ∷ fs) m =
    listed-drop_filters id i f fs (drop_client id g m) ∙ ground (arith, listed-drop id i g f m)

drop_filters-no_empty :
    (id : ℕ) (fs : OrdSet Str) (m : OrdMap Str (OrdSet ℕ))
    → ((f : Str) → find f m ≢ some [])
    → (f : Str) → find f (drop_filters id fs m) ≢ some []
unfolding drop_filters drop_client
drop_filters-no_empty id [] m h = h
drop_filters-no_empty id ((g, u) ∷ fs) m h =
    drop_filters-no_empty id fs (drop_client id g m)
      (store-no_empty g (erase id (clients_of g m)) m h)

drop_filters-SortedSets :
    (id : ℕ) (fs : OrdSet Str) (m : OrdMap Str (OrdSet ℕ))
    → SortedSets m
    → SortedSets (drop_filters id fs m)
unfolding drop_filters
drop_filters-SortedSets id [] m a = a
drop_filters-SortedSets id ((g, u) ∷ fs) m a =
    drop_filters-SortedSets id fs (drop_client id g m) (drop-SortedSets id g m a)

close_found :
    (id : ℕ) (s : Subscriptions) (fs : OrdSet Str)
    → find id s.client_subs ≡ some fs
    → (on_ws_close id s ≡ record {
      client_subs = erase id s.client_subs;
      filter_clients = drop_filters id fs s.filter_clients;
    })
      × (subs_of id s.client_subs ≡ fs)
unfolding on_ws_close subs_of
close_found id s fs e = (rw (e, on_ws_close) refl, rw (e, subs_of) refl)

close_unknown :
    (id : ℕ) (s : Subscriptions)
    → find id s.client_subs ≡ none
    → (on_ws_close id s ≡ s) × (subs_of id s.client_subs ≡ [])
unfolding on_ws_close subs_of
close_unknown id s e = (rw (e, on_ws_close) refl, rw (e, subs_of) refl)

pub close-IsMirror : (id : ℕ) (s : Subscriptions) → IsMirror s → IsMirror (on_ws_close id s)
close-IsMirror id s m = elim (Option-cases (find id s.client_subs)) [
  | inl e ↦ rw (close_unknown id s e).0 m
  | inr (fs, e) ↦
      let (eq, own) = close_found id s fs e in
      rw eq (record {
        same = λ i f. ground (
          arith,
          m.same i f,
          subs_of-erase id i s.client_subs,
          listed-drop_filters id i f fs s.filter_clients,
          own,
          key_eq_iff i id,
          member_none f,
        );
        no_empty = drop_filters-no_empty id fs s.filter_clients m.no_empty;
        sorted = drop_filters-SortedSets id fs s.filter_clients m.sorted;
      })
]

-- On maps that mirror each other, no filter lists a client that was closed, and the other clients
-- stay on the filters that listed them.
pub close-listed :
    (id : ℕ) (filter : Str) (s : Subscriptions)
    → IsMirror s
    → (listed id filter (on_ws_close id s) ≡ false)
      × ((i : ℕ) → i ≢ id → listed i filter (on_ws_close id s) ≡ listed i filter s)
close-listed id filter s m = elim (Option-cases (find id s.client_subs)) [
  | inl e ↦
      let (eq, own) = close_unknown id s e in
      rw eq (ground (arith, m.same id filter, own, member_none filter), λ i h. refl)
  | inr (fs, e) ↦
      let (eq, own) = close_found id s fs e in
      rw eq (
        ground (
          arith,
          m.same id filter,
          own,
          listed-drop_filters id id filter fs s.filter_clients,
          key_eq_iff id id,
        ),
        λ i h.
            ground (arith, h, listed-drop_filters id i filter fs s.filter_clients, key_eq_iff i id),
      )
]
