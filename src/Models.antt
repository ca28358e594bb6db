-- ===== src/Models.antt =====
-- Request and response models (src/tradestation_api_wrapper/models.py). A pydantic model is a record,
-- and constructing it is a function that runs the validators: those of the fields in the order of
-- declaration, then the model validator. Of several refused fields the first one's message is kept.
pub mod Enums
pub mod Options
pub mod Orders
pub mod Replace
pub mod Snapshots
pub mod Params
pub mod Accounts
pub mod Quotes
pub mod Confirmations
pub mod Built
