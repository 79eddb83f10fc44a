-- ===== src/Inventory/Readback.antt =====
-- src/orbitflow/inventory/store.py: reading back the document of a snapshot.
use orbit_flow_evo.Base.{
  ℕ, ◌≡◌, refl, ap, false, none, some, List, [], ◌∷◌, ◌>>=◌, ok, arith, Bool-cases, inl, inr,
}
use orbit_flow_evo.Base.Texts.{Text}
use orbit_flow_evo.Base.Equality.{list_eq, nat_eq, list_beq, eq_self, contains, Distinct}
use orbit_flow_evo.Json.{Json, Items, Fields, names}
use orbit_flow_evo.Inventory.Defs.{DeviceContext, Devices, Event, Snapshot, lookup}
use orbit_flow_evo.Inventory.Sorting.{insert_entry, sort_entries, NodupKeys-sort_entries}
use orbit_flow_evo.Inventory.Devices.{NodupKeys}
use orbit_flow_evo.Spool.Sanitized.{HasDistinctNames, IsSanitized, AreSanitized, FieldsAreSanitized}
use orbit_flow_evo.Inventory.Documents.{
  Formats, texts, serialize, texts_of, deserialize, device_fields, event_names, document, text_ltb,
  insert_field, sort_json, sort_items, sort_fields, devices_of, listed_events, read_document,
  snapshot_of,
}

sort_items-texts : (ts : List Text) → sort_items (texts ts) ≡ texts ts
unfolding sort_json
sort_items-texts [] = refl
sort_items-texts (t ∷ ts) = ap (Items.cons (Json.text t)) (sort_items-texts ts)

texts_of-texts : (ts : List Text) → texts_of (texts ts) ≡ ok ts
unfolding texts_of
texts_of-texts [] = refl
texts_of-texts (t ∷ ts) = rw (texts_of-texts ts) refl

listed_events-texts : (es : List Event) → listed_events (texts (event_names es)) ≡ es
unfolding list_beq
listed_events-texts [] = refl
listed_events-texts (Event.management_ip_changed ∷ es) =
    ap (λ l. Event.management_ip_changed ∷ l) (listed_events-texts es)
listed_events-texts (Event.serial_number_discovered ∷ es) =
    ap (λ l. Event.serial_number_discovered ∷ l) (listed_events-texts es)
listed_events-texts (Event.likely_replacement_or_ip_reassignment ∷ es) =
    ap (λ l. Event.likely_replacement_or_ip_reassignment ∷ l) (listed_events-texts es)
listed_events-texts (Event.hostname_collision ∷ es) =
    ap (λ l. Event.hostname_collision ∷ l) (listed_events-texts es)
listed_events-texts (Event.collection_failed ∷ es) =
    ap (λ l. Event.collection_failed ∷ l) (listed_events-texts es)
listed_events-texts (Event.unresolved_collection_failed ∷ es) =
    ap (λ l. Event.unresolved_collection_failed ∷ l) (listed_events-texts es)

-- An instant is read back from what it was written as.
abbrev pub ReadsInstants : Formats → Type 0
ReadsInstants f = (t : ℕ) → f.fromisoformat (f.isoformat t) ≡ some t

-- A context is read back from what it was serialized to, whatever the order of the fields.
pub deserialize-serialize :
    (f : Formats) (d : DeviceContext)
    → ReadsInstants f
    → deserialize f (sort_json (serialize f d)) ≡ ok d
unfolding deserialize serialize sort_json list_beq
deserialize-serialize f d h =
    rw
      (
        sort_items-texts d.observed_management_ips,
        sort_items-texts d.capability_flags,
        texts_of-texts d.observed_management_ips,
        texts_of-texts d.capability_flags,
        h d.last_successful_collection,
        h d.last_collection_attempt,
        eq_self (f.isoformat d.last_successful_collection),
        eq_self (f.isoformat d.last_collection_attempt),
      )
      refl

-- The fields of the devices, each with its own fields sorted.
abbrev sorted_fields : Formats → Devices → Fields
sorted_fields f [] = Fields.end
sorted_fields f ((id, d) ∷ devices) =
    Fields.field id (sort_json (serialize f d)) (sorted_fields f devices)

insert_field-sorted_fields :
    (f : Formats) (id : Text) (d : DeviceContext) (devices : Devices)
    → insert_field id (sort_json (serialize f d)) (sorted_fields f devices)
      ≡ sorted_fields f (insert_entry id d devices)
unfolding insert_field insert_entry
insert_field-sorted_fields f id d [] = refl
insert_field-sorted_fields f id d ((j, e) ∷ devices) = elim (Bool-cases (text_ltb id j)) [
  | inl before ↦ rw before refl
  | inr after ↦ rw (after, insert_field-sorted_fields f id d devices) refl
]

sort_fields-device_fields :
    (f : Formats) (devices : Devices)
    → sort_fields (device_fields f devices) ≡ sorted_fields f (sort_entries devices)
unfolding sort_json sort_entries
sort_fields-device_fields f [] = refl
sort_fields-device_fields f ((id, d) ∷ devices) =
    rw (sort_fields-device_fields f devices)
      (insert_field-sorted_fields f id d (sort_entries devices))

devices_of-sorted_fields :
    (f : Formats) (devices : Devices)
    → ReadsInstants f
    → devices_of f (sorted_fields f devices) ≡ ok devices
unfolding devices_of
devices_of-sorted_fields f [] h = refl
devices_of-sorted_fields f ((id, d) ∷ devices) h =
    rw (deserialize-serialize f d h, devices_of-sorted_fields f devices h) refl

-- The sorted document of a snapshot is read back as the snapshot, with its devices in the order of their identifiers.
pub snapshot_of-document :
    (f : Formats) (s : Snapshot)
    → ReadsInstants f
    → (read_document (some (sort_json (document f s))) >>= snapshot_of f)
      ≡ ok (record s { devices = sort_entries s.devices })
unfolding read_document snapshot_of document sort_json list_beq
snapshot_of-document f s h =
    rw
      (
        sort_fields-device_fields f s.devices,
        devices_of-sorted_fields f (sort_entries s.devices) h,
        sort_items-texts (event_names s.last_events),
        listed_events-texts s.last_events,
      )
      refl

AreSanitized-texts : (ts : List Text) → AreSanitized (λ _. Unit) (texts ts)
unfolding IsSanitized
AreSanitized-texts [] = tt
AreSanitized-texts (t ∷ ts) = (tt, AreSanitized-texts ts)

serialize-HasDistinctNames :
    (f : Formats) (d : DeviceContext) → HasDistinctNames (sort_json (serialize f d))
unfolding serialize sort_json IsSanitized list_beq
serialize-HasDistinctNames f d =
    rw (sort_items-texts d.observed_management_ips, sort_items-texts d.capability_flags)
      (
        (
          refl,
          (
            refl,
            (
              refl,
              (
                refl,
                (
                  refl,
                  (
                    refl,
                    (
                      refl,
                      (
                        refl,
                        (refl, (refl, (refl, (refl, (refl, (refl, (refl, (refl, (refl, tt))))))))),
                      ),
                    ),
                  ),
                ),
              ),
            ),
          ),
        ),
        (
          tt,
          AreSanitized-texts d.capability_flags,
          (
            tt,
            tt,
            (
              tt,
              tt,
              (
                tt,
                tt,
                (
                  tt,
                  tt,
                  (
                    tt,
                    tt,
                    (
                      tt,
                      tt,
                      (
                        tt,
                        tt,
                        (
                          tt,
                          tt,
                          (
                            tt,
                            tt,
                            (
                              tt,
                              tt,
                              (
                                tt,
                                AreSanitized-texts d.observed_management_ips,
                                (tt, tt, (tt, tt, (tt, tt, (tt, tt, (tt, tt, tt))))),
                              ),
                            ),
                          ),
                        ),
                      ),
                    ),
                  ),
                ),
              ),
            ),
          ),
        ),
      )

contains-sorted_fields :
    (f : Formats) (id : Text) (devices : Devices)
    → lookup id devices ≡ none
    → contains (names (sorted_fields f devices)) id ≡ false
unfolding lookup
contains-sorted_fields f id [] h = refl
contains-sorted_fields f id ((j, d) ∷ devices) h =
    ground (arith, contains-sorted_fields f id devices)

Distinct-sorted_fields :
    (f : Formats) (devices : Devices)
    → NodupKeys devices
    → Distinct (names (sorted_fields f devices))
Distinct-sorted_fields f [] u = tt
Distinct-sorted_fields f ((id, d) ∷ devices) u =
    (contains-sorted_fields f id devices u.0, Distinct-sorted_fields f devices u.1)

FieldsAreSanitized-sorted_fields :
    (f : Formats) (devices : Devices) → FieldsAreSanitized (λ _. Unit) (sorted_fields f devices)
unfolding IsSanitized
FieldsAreSanitized-sorted_fields f [] = tt
FieldsAreSanitized-sorted_fields f ((id, d) ∷ devices) =
    (tt, serialize-HasDistinctNames f d, FieldsAreSanitized-sorted_fields f devices)

-- No object of the document of a snapshot has a name twice, if no identifier stands twice.
pub document-HasDistinctNames :
    (f : Formats) (s : Snapshot) → NodupKeys s.devices → HasDistinctNames (sort_json (document f s))
unfolding document sort_json IsSanitized list_beq
document-HasDistinctNames f s u =
    rw (sort_fields-device_fields f s.devices, sort_items-texts (event_names s.last_events))
      (
        (refl, (refl, (refl, tt))),
        (
          tt,
          (
            Distinct-sorted_fields f (sort_entries s.devices) (NodupKeys-sort_entries s.devices u),
            FieldsAreSanitized-sorted_fields f (sort_entries s.devices),
          ),
          (tt, AreSanitized-texts (event_names s.last_events), (tt, tt, tt)),
        ),
      )
