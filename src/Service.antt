-- ===== src/Service.antt =====
-- internal/service: the assets' metadata.
pub mod AssetStore
pub mod AssetService
pub mod ShotPreview
