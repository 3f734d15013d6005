-- ===== src/Extraction.antt =====
-- The package product-extractor: from a link to the image of a product, and the routes of
-- backend/app/api/extraction.py around it.
pub mod Address
pub mod Guard
pub mod Images
pub mod Product
pub mod Fetcher
pub mod Routes
pub mod Saliency
