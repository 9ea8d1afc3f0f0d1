-- ===== src/Message.antt =====
-- rabbitpy/message.py: a message, its properties and how it is published. Properties has the
-- properties, Body the cutting of the body into frames; this file the methods.
--
-- What Python and pamqp convert is the parameter `Convert` of Properties.
pub mod Properties
pub mod Body
pub mod Publish
pub mod Create
pub mod Delivery
