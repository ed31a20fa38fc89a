-- ===== src/Events/Reaches.antt =====
-- internal/services/event_service.go and venue_service.go change the tables by steps of `Inventory`
-- alone.
use ticket_master.Prelude.{ℕ, Bool}
use ticket_master.Exec.{Env}
use ticket_master.Repository.Refines.{IsLawful}
use ticket_master.Repository.Reaches.{Reaches, reaches_rules}
use ticket_master.Repository.Reaches.Catalog.{
  find_venue_by_id-Reaches, create_event_row-Reaches, create_bulk_seats-Reaches,
  create_venue_row-Reaches, find_event_by_id-Reaches,
}
use ticket_master.Service.Reaches.{when-Reaches}
use ticket_master.Venues.{CreateVenueRequest, create_venue}
use ticket_master.Events.{
  CreateEventRequest, create_event, fill_event, invalidate_event_cache, get_event_from_cache,
  cache_event, load_event, get_event_by_id,
}

module _ {env : Env} (lawful : IsLawful env) where
  pub create_venue-Reaches : (req : CreateVenueRequest) → Reaches env (create_venue req)
  unfolding create_venue
  create_venue-Reaches req = search (create_venue_row-Reaches)

  pub create_event-Reaches :
      (has_redis : Bool) (req : CreateEventRequest) (created_by : ℕ)
      → Reaches env (create_event has_redis req created_by)
  unfolding create_event fill_event invalidate_event_cache
  create_event-Reaches has_redis req created_by =
      search
        (
          reaches_rules, find_venue_by_id-Reaches, create_event_row-Reaches,
          create_bulk_seats-Reaches, when-Reaches,
        )
        depth 12

  pub get_event_by_id-Reaches :
      (has_redis : Bool) (id : ℕ) → Reaches env (get_event_by_id has_redis id)
  unfolding get_event_by_id get_event_from_cache load_event cache_event
  get_event_by_id-Reaches has_redis id =
      search (reaches_rules, find_event_by_id-Reaches, when-Reaches) depth 12
