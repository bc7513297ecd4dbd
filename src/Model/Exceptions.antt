-- ===== src/Model/Exceptions.antt =====
-- The exceptions that the services throw, one constructor for each message, and the HTTP status that
-- NestJS answers for the exception's class.
use altstay_backend.Prelude.{ℕ}

pub data Exception : Type 0 where
  -- NotFoundException
  user_not_found booking_not_found property_not_found : Exception
  room_type_not_available rate_plan_not_available quote_not_found : Exception
  payment_not_on_booking membership_plan_not_found : Exception
  membership_not_found membership_purchase_not_found : Exception
  room_type_not_found inventory_row_not_found rate_plan_not_found : Exception
  -- BadRequestException
  insufficient_coin_balance adjustment_reason_required : Exception
  adjustment_amount_zero adjustment_makes_negative : Exception
  empty_date_range date_range_too_long : Exception
  no_nights rooms_not_positive coins_negative too_many_coins plan_not_priced : Exception
  below_minimum_stay above_maximum_stay closed_to_arrival closed_to_departure : Exception
  invalid_dates : Exception
  check_out_not_after_check_in check_in_in_past stay_too_long too_many_guests : Exception
  invalid_coin_redemption roles_not_seeded password_not_set : Exception
  booking_not_acceptable booking_not_completable : Exception
  total_below_blocked total_below_sold unknown_status : Exception
  extension_not_positive unsupported_action purchase_not_refundable : Exception
  payment_not_refundable nothing_to_refund refund_out_of_range : Exception
  -- UnauthorizedException, and HttpException with status 429
  invalid_refresh_token too_many_requests : Exception
  otp_expired_or_not_found too_many_otp_attempts invalid_otp : Exception
  invalid_phone_or_password account_not_active current_password_incorrect : Exception
  -- ForbiddenException
  admin_access_required : Exception
  -- ConflictException, and HttpException with status 409
  illegal_transition no_inventory_loaded not_enough_rooms : Exception
  quote_already_used quote_expired checkout_details_changed rooms_no_longer_available : Exception
  key_used_with_different_request claim_gone claim_in_flight : Exception
  already_paid not_payable hold_about_to_expire no_longer_holding : Exception
  rooms_sold_in_range rate_plan_has_bookings prices_have_bookings : Exception
  key_used_with_different_plan purchase_not_pending purchase_session_expired : Exception
  -- BadGatewayException
  checkout_not_started payment_service_not_configured : Exception
  -- an error of the payment service's client that is not a rejection
  payment_service_failure : Exception
  -- thrown by the database client
  unique_violation record_not_found reservation_number_clash foreign_key_violation : Exception
  -- InternalServerErrorException
  no_reservation_number retries_exhausted : Exception
  -- Error
  purchase_not_found purchase_not_captured : Exception
  -- a Date that is not a time, refused by `toISOString` and by the database client
  invalid_time : Exception

unfoldable pub http_status : Exception → ℕ
http_status user_not_found = 404
http_status booking_not_found = 404
http_status property_not_found = 404
http_status room_type_not_available = 404
http_status rate_plan_not_available = 404
http_status quote_not_found = 404
http_status payment_not_on_booking = 404
http_status membership_plan_not_found = 404
http_status membership_not_found = 404
http_status room_type_not_found = 404
http_status inventory_row_not_found = 404
http_status rate_plan_not_found = 404
http_status membership_purchase_not_found = 404
http_status invalid_refresh_token = 401
http_status too_many_requests = 429
http_status otp_expired_or_not_found = 401
http_status too_many_otp_attempts = 401
http_status invalid_otp = 401
http_status invalid_phone_or_password = 401
http_status account_not_active = 401
http_status current_password_incorrect = 401
http_status admin_access_required = 403
http_status illegal_transition = 409
http_status no_inventory_loaded = 409
http_status not_enough_rooms = 409
http_status rooms_no_longer_available = 409
http_status quote_already_used = 409
http_status quote_expired = 409
http_status checkout_details_changed = 409
http_status key_used_with_different_request = 409
http_status claim_gone = 409
http_status claim_in_flight = 409
http_status already_paid = 409
http_status not_payable = 409
http_status hold_about_to_expire = 409
http_status no_longer_holding = 409
http_status rooms_sold_in_range = 409
http_status rate_plan_has_bookings = 409
http_status prices_have_bookings = 409
http_status key_used_with_different_plan = 409
http_status purchase_not_pending = 409
http_status purchase_session_expired = 409
http_status checkout_not_started = 502
http_status payment_service_not_configured = 502
http_status payment_service_failure = 500
http_status purchase_not_found = 500
http_status purchase_not_captured = 500
http_status invalid_time = 500
http_status unique_violation = 500
http_status record_not_found = 500
http_status reservation_number_clash = 500
http_status foreign_key_violation = 500
http_status no_reservation_number = 500
http_status retries_exhausted = 500
http_status _ = 400
